-- ===== src/Subscription/Lifecycle/Runs.antt =====
-- Runs of operations of a subscription, and the queued events.
use centrifuge_go.Prelude.{true, ◌≡◌}
use centrifuge_go.Errors.{subscription_unsubscribed}
use centrifuge_go.State.{Frame, Env}
use centrifuge_go.Subscription.{
  Op, Ops, Waiting, token_call, nothing, next, run, run_all, run_call, subscribes, unsubscribes,
  sets_tags_filter, calls, call_times_out, resubscribes, resubscribe_timer_fires,
  refresh_timer_fires, gets_token, gets_state, subscribe_replies, refresh_replies, delivers,
  publication_pushed, join_pushed, leave_pushed, unsubscribe_pushed, invalidates, loses_transport,
  closes, client_changes, move_to_unsubscribed,
}
use centrifuge_go.Subscription.Lifecycle.{IsTold, KeepsTold}
use centrifuge_go.Subscription.Lifecycle.Moves.{
  subscribe-IsTold, unsubscribe-IsTold, resubscribe-IsTold, move_to_unsubscribed_locked-IsTold,
  move_to_subscribing_locked-IsTold,
}
use centrifuge_go.Subscription.Lifecycle.Waits.{
  continue_async-IsTold, get_state_and_resubscribe-IsTold,
}
use centrifuge_go.Subscription.Lifecycle.Sessions.{
  handle_publication-IsTold, handle_join-IsTold, handle_leave-IsTold, invalidate_state-IsTold,
  handle_unsubscribe-IsTold, set_tags_filter-IsTold, on_subscribe-IsTold, sub_future_timeout-IsTold,
  subscribe_replied-IsTold, deliver-IsTold,
}
use centrifuge_go.Subscription.Lifecycle.Refreshes.{
  refresh_replied-IsTold, resubscribe_timer_fired-IsTold, refresh_timer_fired-IsTold,
}

-- What others do to the client meanwhile is not about this subscription: it queues no event that
-- the machine would not take without a move, and leaves the queue open.
abbrev mutual
  pub IsMindful : Op → Type 0
  IsMindful (refresh_timer_fires w) = WaitsMindfully w
  IsMindful (gets_token w) = WaitsMindfully w
  IsMindful (gets_state m reply h w) = AllMindful m × AllMindful h × WaitsMindfully w
  IsMindful (subscribe_replies r attempt generation h) = AllMindful h
  IsMindful (refresh_replies r session invalidations h) = AllMindful h
  IsMindful (delivers session pairs h) = AllMindful h
  IsMindful (client_changes g) = KeepsTold (λ f. record f { client = g f.client })
  IsMindful _ = true ≡ true

  pub WaitsMindfully : Waiting → Type 0
  WaitsMindfully (token_call m reply h) = AllMindful m × AllMindful h

  pub AllMindful : Ops → Type 0
  AllMindful nothing = true ≡ true
  AllMindful (next op ops) = IsMindful op × AllMindful ops

mutual
  unfolding run move_to_unsubscribed

  tells_op : (env : Env) (op : Op) → IsMindful op → KeepsTold (run env op)
  tells_op env (subscribes registered) q f v = subscribe-IsTold env registered f v
  tells_op env unsubscribes q f v = unsubscribe-IsTold env f v
  tells_op env (sets_tags_filter t) q f v = set_tags_filter-IsTold t f v
  tells_op env (calls call) q f v = on_subscribe-IsTold call f v
  tells_op env (call_times_out ctx id) q f v = sub_future_timeout-IsTold env ctx id f v
  tells_op env resubscribes q f v = resubscribe-IsTold env f v
  tells_op env resubscribe_timer_fires q f v = resubscribe_timer_fired-IsTold env f v
  tells_op env (refresh_timer_fires w) q f v =
      let k = tells_call env w q in refresh_timer_fired-IsTold env (run_call env w) k.0 k.1 f v
  tells_op env (gets_token w) q f v =
      let k = tells_call env w q in continue_async-IsTold env (run_call env w) k.0 k.1 f v
  tells_op env (gets_state m reply h w) (qm, qh, qw) f v =
      let k = tells_call env w qw in
      get_state_and_resubscribe-IsTold env
        (record { meanwhile = run_all env m; reply = reply; handled = run_all env h })
        (run_call env w) (tells_all env m qm) (tells_all env h qh) k.0 k.1 f v
  tells_op env (subscribe_replies r attempt generation h) q f v =
      subscribe_replied-IsTold env (run_all env h) r attempt generation (tells_all env h q) f v
  tells_op env (refresh_replies r session invalidations h) q f v =
      refresh_replied-IsTold env (run_all env h) r session invalidations (tells_all env h q) f v
  tells_op env (delivers session pairs h) q f v =
      deliver-IsTold (λ event. run_all env h) session pairs (λ event. tells_all env h q) f v
  tells_op env (publication_pushed p) q f v = handle_publication-IsTold env p f v
  tells_op env (join_pushed info) q f v = handle_join-IsTold info f v
  tells_op env (leave_pushed info) q f v = handle_leave-IsTold info f v
  tells_op env (unsubscribe_pushed code reason) q f v =
      handle_unsubscribe-IsTold env code reason f v
  tells_op env invalidates q f v = invalidate_state-IsTold f v
  tells_op env (loses_transport code reason) q f v =
      move_to_subscribing_locked-IsTold code reason f v
  tells_op env (closes code reason) q f v =
      move_to_unsubscribed_locked-IsTold code reason subscription_unsubscribed f v
  tells_op env (client_changes g) q f v = q f v

  tells_call :
      (env : Env) (w : Waiting)
      → WaitsMindfully w
      → KeepsTold (run_call env w).meanwhile × KeepsTold (run_call env w).handled
  tells_call env (token_call m reply h) q = (tells_all env m q.0, tells_all env h q.1)

  tells_all : (env : Env) (ops : Ops) → AllMindful ops → KeepsTold (run_all env ops)
  tells_all env nothing q f v = v
  tells_all env (next op ops) q f v = tells_all env ops q.1 (run env op f) (tells_op env op q.0 f v)

-- Whatever sequence of operations runs, nested ones included, the queued events of the channel go by
-- the documented lifecycle and end in the state that the subscription is in: subscribing only from
-- another state, subscribed only from subscribing, unsubscribed only when not unsubscribed, and
-- publications, joins and leaves only while subscribed. The handlers of the three changes are set,
-- the queue is open, and others queue no event of the channel.
pub run_all-IsTold :
    (env : Env) (ops : Ops) (f : Frame) → AllMindful ops → IsTold f → IsTold (run_all env ops f)
run_all-IsTold env ops f q v = tells_all env ops q f v
