-- ===== src/Subscription/Soundness/Runs.antt =====
-- Every interleaving of operations keeps a subscription sound.
use centrifuge_go.Prelude.{ℕ, false}
use centrifuge_go.Errors.{Result, ok, err, subscription_unsubscribed}
use centrifuge_go.Protocol.{SubscribeResult}
use centrifuge_go.State.{Frame, Env}
use centrifuge_go.Subscription.{
  Op, Ops, Waiting, token_call, nothing, next, run, run_all, run_call, subscribes, unsubscribes,
  sets_tags_filter, calls, call_times_out, resubscribes, resubscribe_timer_fires,
  refresh_timer_fires, gets_token, gets_state, subscribe_replies, refresh_replies, delivers,
  publication_pushed, join_pushed, leave_pushed, unsubscribe_pushed, invalidates, loses_transport,
  closes, client_changes, subscribe_replied, set_inflight, move_to_unsubscribed,
}
use centrifuge_go.Subscription.Soundness.{
  IsSound, KeepsSound, resubscribe-IsSound, subscribe-IsSound, unsubscribe-IsSound,
  move_to_unsubscribed_locked-IsSound, move_to_subscribing_locked-IsSound,
}
use centrifuge_go.Subscription.Soundness.Waits.{
  subscribe_failed-IsSound, continue_async-IsSound, get_state_and_resubscribe-IsSound,
}
use centrifuge_go.Subscription.Soundness.Sessions.{
  move_to_subscribed-IsSound, handle_publication-IsSound, handle_join-IsSound, handle_leave-IsSound,
  handle_unsubscribe-IsSound, invalidate_state-IsSound, set_tags_filter-IsSound,
  on_subscribe-IsSound, sub_future_timeout-IsSound, deliver-IsSound,
}
use centrifuge_go.Subscription.Soundness.Refreshes.{
  refresh_replied-IsSound, resubscribe_timer_fired-IsSound, refresh_timer_fired-IsSound,
}

subscribe_replied-IsSound :
    (env : Env) (handled : Frame → Frame) (r : Result SubscribeResult) (attempt generation : ℕ)
    → KeepsSound handled
    → (f : Frame) → IsSound f.sub
    → IsSound (subscribe_replied env handled r attempt generation f).0.sub
unfolding subscribe_replied
subscribe_replied-IsSound env handled (ok r) attempt generation k f v =
    move_to_subscribed-IsSound env r generation attempt (set_inflight false f) (record {
      retries = v.retries;
      refreshes = v.refreshes;
      waits = v.waits;
      unrouted = v.unrouted;
    })
subscribe_replied-IsSound env handled (err e) attempt generation k f v =
    subscribe_failed-IsSound env handled e attempt generation k (set_inflight false f) (record {
      retries = v.retries;
      refreshes = v.refreshes;
      waits = v.waits;
      unrouted = v.unrouted;
    })

mutual
  unfolding run move_to_unsubscribed

  sound : (env : Env) (op : Op) → KeepsSound (run env op)
  sound env (subscribes registered) f v = subscribe-IsSound env registered f v
  sound env unsubscribes f v = unsubscribe-IsSound env f v
  sound env (sets_tags_filter t) f v = set_tags_filter-IsSound t f.sub v
  sound env (calls call) f v = on_subscribe-IsSound call f v
  sound env (call_times_out ctx id) f v = sub_future_timeout-IsSound env ctx id f v
  sound env resubscribes f v = resubscribe-IsSound env f v
  sound env resubscribe_timer_fires f v = resubscribe_timer_fired-IsSound env f v
  sound env (refresh_timer_fires w) f v =
      let k = sound_call env w in refresh_timer_fired-IsSound env (run_call env w) k.0 k.1 f v
  sound env (gets_token w) f v =
      let k = sound_call env w in continue_async-IsSound env (run_call env w) k.0 k.1 f v
  sound env (gets_state m reply h w) f v =
      let k = sound_call env w in
      get_state_and_resubscribe-IsSound env
        (record { meanwhile = run_all env m; reply = reply; handled = run_all env h })
        (run_call env w) (sound_all env m) (sound_all env h) k.0 k.1 f v
  sound env (subscribe_replies r attempt generation h) f v =
      subscribe_replied-IsSound env (run_all env h) r attempt generation (sound_all env h) f v
  sound env (refresh_replies r session invalidations h) f v =
      refresh_replied-IsSound env (run_all env h) r session invalidations (sound_all env h) f v
  sound env (delivers session pairs h) f v =
      deliver-IsSound (λ _. run_all env h) session pairs (λ _. sound_all env h) f v
  sound env (publication_pushed p) f v = handle_publication-IsSound env p f v
  sound env (join_pushed info) f v = handle_join-IsSound info f v
  sound env (leave_pushed info) f v = handle_leave-IsSound info f v
  sound env (unsubscribe_pushed code reason) f v = handle_unsubscribe-IsSound env code reason f v
  sound env invalidates f v = invalidate_state-IsSound f v
  sound env (loses_transport code reason) f v = move_to_subscribing_locked-IsSound code reason f v
  sound env (closes code reason) f v =
      move_to_unsubscribed_locked-IsSound code reason subscription_unsubscribed f
  sound env (client_changes g) f v = v

  sound_call :
      (env : Env) (w : Waiting)
      → KeepsSound (run_call env w).meanwhile × KeepsSound (run_call env w).handled
  sound_call env (token_call m reply h) = (sound_all env m, sound_all env h)

  sound_all : (env : Env) (ops : Ops) → KeepsSound (run_all env ops)
  sound_all env nothing f v = v
  sound_all env (next op ops) f v = sound_all env ops (run env op f) (sound env op f v)

-- Whatever sequence of operations runs on a sound subscription, with whatever sequences nested in
-- their waits, it stays sound: timers armed only in the state that they serve, calls waiting only
-- while subscribing, and no numeric channel id while unsubscribed.
pub run_all-IsSound :
    (env : Env) (ops : Ops) (f : Frame) → IsSound f.sub → IsSound (run_all env ops f).sub
run_all-IsSound env ops f v = sound_all env ops f v
