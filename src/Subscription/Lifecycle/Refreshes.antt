-- ===== src/Subscription/Lifecycle/Refreshes.antt =====
-- Token refreshes and timers, and the queued events.
use centrifuge_go.Prelude.{ℕ, String, Bool, arith, nat_key, string_key, inl, inr, Option-cases}
use centrifuge_go.Codes.{unsubscribed_unauthorized}
use centrifuge_go.Errors.{
  Result, ok, err, as_server_error, sub_refresh_error, subscription_unsubscribed,
}
use centrifuge_go.State.{stop, Frame, Env, sub_refresh_req, sub_refresh_cb}
use centrifuge_go.Subscription.{
  TokenCall, emit_error, schedule_sub_refresh, refresh, refresh_token_received, refresh_replied,
  rearm, unsubscribe_if_refresh_current, send_unsubscribe_locked, resubscribe_timer_fired,
  refresh_timer_fired,
}
use centrifuge_go.Subscription.Lifecycle.{KeepsTold}
use centrifuge_go.Subscription.Lifecycle.Quiet.{send_ignoring_error-SameEvents}
use centrifuge_go.Subscription.Lifecycle.Moves.{
  move_to_unsubscribed_locked-IsTold, send_unsubscribe_locked-IsTold, resubscribe-IsTold,
  emit_error-IsTold,
}

rearm-IsTold : (session ttl : ℕ) → KeepsTold (rearm session ttl)
unfolding rearm schedule_sub_refresh
rearm-IsTold session ttl f v = ground (arith, v)

unsubscribe_if_refresh_current-IsTold :
    (env : Env) (session invalidations code : ℕ) (reason : String)
    → KeepsTold (unsubscribe_if_refresh_current env session invalidations code reason)
unfolding unsubscribe_if_refresh_current
unsubscribe_if_refresh_current-IsTold env session invalidations code reason f v = ground (
  arith,
  v,
  move_to_unsubscribed_locked-IsTold code reason subscription_unsubscribed
      (send_unsubscribe_locked env f) (send_unsubscribe_locked-IsTold env f v),
)

refresh_token_received-IsTold :
    (env : Env) (handled : Frame → Frame) (reply : Result String) (session invalidations : ℕ)
    → KeepsTold handled
    → KeepsTold (refresh_token_received env handled reply session invalidations)
unfolding refresh_token_received
refresh_token_received-IsTold env handled (err e) session invalidations k f v =
    let g = emit_error (sub_refresh_error e) f in
    let vg = emit_error-IsTold (sub_refresh_error e) f v in
    ground (
      arith,
      unsubscribe_if_refresh_current-IsTold env session invalidations unsubscribed_unauthorized
          "unauthorized" f v,
      rearm-IsTold session 10 (handled g) (k g vg),
    )
refresh_token_received-IsTold env handled (ok token) session invalidations k f v = ground (
  arith,
  v,
  unsubscribe_if_refresh_current-IsTold env session invalidations unsubscribed_unauthorized
      "unauthorized" f v,
  send_ignoring_error-SameEvents env (sub_refresh_req f.sub.channel token)
      (sub_refresh_cb f.sub.address session invalidations) f.client,
)

refresh-IsTold :
    (env : Env) (call : TokenCall) (session : ℕ)
    → KeepsTold call.meanwhile
    → KeepsTold call.handled
    → KeepsTold (refresh env call session)
unfolding refresh
refresh-IsTold env call session m h f v = ground (
  arith,
  v,
  m f v,
  refresh_token_received-IsTold env call.handled call.reply session f.sub.invalidations h
      (call.meanwhile f) (m f v),
)

pub refresh_replied-IsTold :
    (env : Env) (handled : Frame → Frame) (r : Result (Bool × ℕ)) (session invalidations : ℕ)
    → KeepsTold handled
    → KeepsTold (refresh_replied env handled r session invalidations)
unfolding refresh_replied
refresh_replied-IsTold env handled (ok (expires, ttl)) session invalidations k f v =
    ground (arith, v, rearm-IsTold session ttl f v)
refresh_replied-IsTold env handled (err e) session invalidations k f v =
    let f1 = emit_error (sub_refresh_error e) f in
    let g = handled f1 in
    let vg = k f1 (emit_error-IsTold (sub_refresh_error e) f v) in
    elim (Option-cases (as_server_error e)) [
      | inl n ↦ ground (arith, v, n, rearm-IsTold session 10 g vg)
      | inr (se, n) ↦ ground (
        arith,
        v,
        n,
        rearm-IsTold session 10 g vg,
        unsubscribe_if_refresh_current-IsTold env session invalidations se.code se.message g vg,
      )
    ]

pub resubscribe_timer_fired-IsTold : (env : Env) → KeepsTold (resubscribe_timer_fired env)
unfolding resubscribe_timer_fired
resubscribe_timer_fired-IsTold env f v = ground (
  arith,
  v,
  resubscribe-IsTold env
      (record f { sub = record (f.sub) { resubscribe_timer = stop f.sub.resubscribe_timer } }),
)

pub refresh_timer_fired-IsTold :
    (env : Env) (call : TokenCall)
    → KeepsTold call.meanwhile
    → KeepsTold call.handled
    → KeepsTold (refresh_timer_fired env call)
unfolding refresh_timer_fired
refresh_timer_fired-IsTold env call m h f v = elim (Option-cases f.sub.refresh_timer) [
  | inl n ↦ ground (arith, n, v)
  | inr (t, n) ↦ ground (
    arith,
    n,
    v,
    refresh-IsTold env call t.key m h
        (record f { sub = record (f.sub) { refresh_timer = stop f.sub.refresh_timer } }),
  )
]
