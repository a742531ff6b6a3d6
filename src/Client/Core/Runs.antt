-- ===== src/Client/Core/Runs.antt =====
-- Runs of operations of a subscription, and the core of its client.
use centrifuge_go.Prelude.{true, ◌≡◌}
use centrifuge_go.State.{Client, Env, Frame}
use centrifuge_go.Subscription.{
  Op, Ops, Waiting, token_call, nothing, next, run, run_all, run_call, subscribes, unsubscribes,
  sets_tags_filter, calls, call_times_out, resubscribes, resubscribe_timer_fires,
  refresh_timer_fires, gets_token, gets_state, subscribe_replies, refresh_replies, delivers,
  publication_pushed, join_pushed, leave_pushed, unsubscribe_pushed, invalidates, loses_transport,
  closes, client_changes, subscribe, unsubscribe, on_subscribe, resubscribe,
  resubscribe_timer_fired, handle_publication, handle_join, handle_leave, handle_unsubscribe,
  invalidate_state, move_to_subscribing_locked, move_to_unsubscribed,
}
use centrifuge_go.Client.Core.{
  SparesCore, resubscribe-SparesCore, invalidate_state-SparesCore,
  move_to_subscribing_locked-SparesCore, move_to_unsubscribed-SparesCore,
}
use centrifuge_go.Client.Core.Frames.{
  subscribe-SparesCore, unsubscribe-SparesCore, on_subscribe-SparesCore,
  resubscribe_timer_fired-SparesCore, handle_publication-SparesCore, handle_join-SparesCore,
  handle_leave-SparesCore, handle_unsubscribe-SparesCore,
}
use centrifuge_go.Client.Core.Waits.{
  KeepsClient, IsAboutCore, SparesCore-KeepsClient, continue_async-KeepsClient,
  get_state_and_resubscribe-KeepsClient, subscribe_replied-KeepsClient, deliver-KeepsClient,
}
use centrifuge_go.Client.Core.Refreshes.{
  sub_future_timeout-KeepsClient, refresh_replied-KeepsClient, refresh_timer_fired-KeepsClient,
}

-- What others do to the client meanwhile keeps what `P` says of it.
abbrev mutual
  pub OpKeeps : (Client → Type 0) → Op → Type 0
  OpKeeps P (refresh_timer_fires w) = WaitKeeps P w
  OpKeeps P (gets_token w) = WaitKeeps P w
  OpKeeps P (gets_state m reply h w) = OpsKeep P m × OpsKeep P h × WaitKeeps P w
  OpKeeps P (subscribe_replies r attempt generation h) = OpsKeep P h
  OpKeeps P (refresh_replies r session invalidations h) = OpsKeep P h
  OpKeeps P (delivers session pairs h) = OpsKeep P h
  OpKeeps P (client_changes g) = (c : Client) → P c → P (g c)
  OpKeeps P _ = true ≡ true

  pub WaitKeeps : (Client → Type 0) → Waiting → Type 0
  WaitKeeps P (token_call m reply h) = OpsKeep P m × OpsKeep P h

  pub OpsKeep : (Client → Type 0) → Ops → Type 0
  OpsKeep P nothing = true ≡ true
  OpsKeep P (next op ops) = OpKeeps P op × OpsKeep P ops

module _ (P : Client → Type 0) (about : IsAboutCore P) where
  spared : (op : Frame → Frame) → SparesCore op → KeepsClient P op
  spared op k = SparesCore-KeepsClient P about op k

  mutual
    unfolding run

    pub run-KeepsClient : (env : Env) (op : Op) → OpKeeps P op → KeepsClient P (run env op)
    run-KeepsClient env (subscribes registered) q f v =
        spared (λ f. (subscribe env registered f).0) (subscribe-SparesCore env registered) f v
    run-KeepsClient env unsubscribes q f v =
        spared (λ f. (unsubscribe env f).0) (unsubscribe-SparesCore env) f v
    run-KeepsClient env (sets_tags_filter t) q f v = v
    run-KeepsClient env (calls call) q f v =
        spared (on_subscribe call) (on_subscribe-SparesCore call) f v
    run-KeepsClient env (call_times_out ctx id) q f v =
        sub_future_timeout-KeepsClient P about env ctx id f v
    run-KeepsClient env resubscribes q f v =
        spared (resubscribe env) (resubscribe-SparesCore env) f v
    run-KeepsClient env resubscribe_timer_fires q f v =
        spared (resubscribe_timer_fired env) (resubscribe_timer_fired-SparesCore env) f v
    run-KeepsClient env (refresh_timer_fires w) q f v =
        let k = call-KeepsClient env w q in
        refresh_timer_fired-KeepsClient P about env (run_call env w) k.0 k.1 f v
    run-KeepsClient env (gets_token w) q f v =
        let k = call-KeepsClient env w q in
        continue_async-KeepsClient P about env (run_call env w) k.0 k.1 f v
    run-KeepsClient env (gets_state m reply h w) (qm, qh, qw) f v =
        let k = call-KeepsClient env w qw in
        get_state_and_resubscribe-KeepsClient P about env
          (record { meanwhile = run_all env m; reply = reply; handled = run_all env h })
          (run_call env w) (run_all-KeepsClient env m qm) (run_all-KeepsClient env h qh) k.0 k.1 f v
    run-KeepsClient env (subscribe_replies r attempt generation h) q f v =
        subscribe_replied-KeepsClient P about env (run_all env h) r attempt generation
          (run_all-KeepsClient env h q) f v
    run-KeepsClient env (refresh_replies r session invalidations h) q f v =
        refresh_replied-KeepsClient P about env (run_all env h) r session invalidations
          (run_all-KeepsClient env h q) f v
    run-KeepsClient env (delivers session pairs h) q f v =
        deliver-KeepsClient P about (λ event. run_all env h) session pairs
          (λ event. run_all-KeepsClient env h q) f v
    run-KeepsClient env (publication_pushed p) q f v =
        spared (λ f. (handle_publication env p f).0) (handle_publication-SparesCore env p) f v
    run-KeepsClient env (join_pushed info) q f v =
        spared (handle_join info) (handle_join-SparesCore info) f v
    run-KeepsClient env (leave_pushed info) q f v =
        spared (handle_leave info) (handle_leave-SparesCore info) f v
    run-KeepsClient env (unsubscribe_pushed code reason) q f v =
        spared (handle_unsubscribe env code reason) (handle_unsubscribe-SparesCore env code reason)
          f v
    run-KeepsClient env invalidates q f v = spared invalidate_state invalidate_state-SparesCore f v
    run-KeepsClient env (loses_transport code reason) q f v =
        spared (move_to_subscribing_locked code reason)
          (move_to_subscribing_locked-SparesCore code reason) f v
    run-KeepsClient env (closes code reason) q f v =
        spared (move_to_unsubscribed code reason) (move_to_unsubscribed-SparesCore code reason) f v
    run-KeepsClient env (client_changes g) q f v = q f.client v

    call-KeepsClient :
        (env : Env) (w : Waiting)
        → WaitKeeps P w
        → KeepsClient P (run_call env w).meanwhile × KeepsClient P (run_call env w).handled
    call-KeepsClient env (token_call m reply h) q =
        (run_all-KeepsClient env m q.0, run_all-KeepsClient env h q.1)

    pub run_all-KeepsClient :
        (env : Env) (ops : Ops) → OpsKeep P ops → KeepsClient P (run_all env ops)
    run_all-KeepsClient env nothing q f v = v
    run_all-KeepsClient env (next op ops) q f v =
        run_all-KeepsClient env ops q.1 (run env op f) (run-KeepsClient env op q.0 f v)
