-- ===== src/Subscription/Soundness/Refreshes.antt =====
-- Token refreshes and timers keep a subscription sound.
use centrifuge_go.Prelude.{ℕ, String, Bool, arith, nat_key, Option-cases, inl, inr}
use centrifuge_go.Errors.{
  Result, ok, err, as_server_error, sub_refresh_error, subscription_unsubscribed,
}
use centrifuge_go.Codes.{unsubscribed_unauthorized}
use centrifuge_go.State.{Subscription, Frame, Env, stop}
use centrifuge_go.Subscription.{
  schedule_sub_refresh, TokenCall, refresh, refresh_token_received, refresh_replied,
  unsubscribe_if_refresh_current, emit_error, resubscribe_timer_fired, refresh_timer_fired,
  send_unsubscribe_locked, rearm,
}
use centrifuge_go.Subscription.Soundness.{
  IsSound, KeepsSound, resubscribe-IsSound, move_to_unsubscribed_locked-IsSound,
}

pub schedule_sub_refresh-IsSound :
    (ttl : ℕ) (s : Subscription) → IsSound s → IsSound (schedule_sub_refresh ttl s)
unfolding schedule_sub_refresh
schedule_sub_refresh-IsSound ttl s v = ground arith

rearm-IsSound : (session ttl : ℕ) → KeepsSound (rearm session ttl)
unfolding rearm
rearm-IsSound session ttl f v = ground (arith, schedule_sub_refresh-IsSound ttl f.sub v)

unsubscribe_if_refresh_current-IsSound :
    (env : Env) (session invalidations code : ℕ) (reason : String)
    → KeepsSound (unsubscribe_if_refresh_current env session invalidations code reason)
unfolding unsubscribe_if_refresh_current
unsubscribe_if_refresh_current-IsSound env session invalidations code reason f v = ground (
  arith,
  move_to_unsubscribed_locked-IsSound code reason subscription_unsubscribed
      (send_unsubscribe_locked env f),
)

refresh_token_received-IsSound :
    (env : Env) (handled : Frame → Frame) (reply : Result String) (session invalidations : ℕ)
    → KeepsSound handled
    → KeepsSound (refresh_token_received env handled reply session invalidations)
unfolding refresh_token_received emit_error
refresh_token_received-IsSound env handled (err e) session invalidations k f v =
    let g = emit_error (sub_refresh_error e) f in
    ground (
      arith,
      unsubscribe_if_refresh_current-IsSound env session invalidations unsubscribed_unauthorized
          "unauthorized" f v,
      rearm-IsSound session 10 (handled g) (k g v),
    )
refresh_token_received-IsSound env handled (ok token) session invalidations k f v = ground (
  arith,
  unsubscribe_if_refresh_current-IsSound env session invalidations unsubscribed_unauthorized
      "unauthorized" f v,
)

pub refresh-IsSound :
    (env : Env) (call : TokenCall) (session : ℕ)
    → KeepsSound call.meanwhile
    → KeepsSound call.handled
    → KeepsSound (refresh env call session)
unfolding refresh
refresh-IsSound env call session m h f v = ground (
  arith,
  m f v,
  refresh_token_received-IsSound env call.handled call.reply session f.sub.invalidations h
      (call.meanwhile f) (m f v),
)

pub refresh_replied-IsSound :
    (env : Env) (handled : Frame → Frame) (r : Result (Bool × ℕ)) (session invalidations : ℕ)
    → KeepsSound handled
    → KeepsSound (refresh_replied env handled r session invalidations)
unfolding refresh_replied emit_error
refresh_replied-IsSound env handled (ok (expires, ttl)) session invalidations k f v =
    ground (arith, rearm-IsSound session ttl f v)
refresh_replied-IsSound env handled (err e) session invalidations k f v =
    let g = handled (emit_error (sub_refresh_error e) f) in
    let vg = k (emit_error (sub_refresh_error e) f) v in
    elim (Option-cases (as_server_error e)) [
      | inl n ↦ ground (arith, n, rearm-IsSound session 10 g vg)
      | inr (se, n) ↦ ground (
        arith,
        n,
        rearm-IsSound session 10 g vg,
        unsubscribe_if_refresh_current-IsSound env session invalidations se.code se.message g vg,
      )
    ]

pub resubscribe_timer_fired-IsSound : (env : Env) → KeepsSound (resubscribe_timer_fired env)
unfolding resubscribe_timer_fired
resubscribe_timer_fired-IsSound env f v = ground (
  arith,
  resubscribe-IsSound env
      (record f { sub = record (f.sub) { resubscribe_timer = stop f.sub.resubscribe_timer } }),
)

pub refresh_timer_fired-IsSound :
    (env : Env) (call : TokenCall)
    → KeepsSound call.meanwhile
    → KeepsSound call.handled
    → KeepsSound (refresh_timer_fired env call)
unfolding refresh_timer_fired
refresh_timer_fired-IsSound env call m h f v = elim (Option-cases f.sub.refresh_timer) [
  | inl n ↦ ground (arith, n)
  | inr (t, n) ↦ ground (
    arith,
    n,
    refresh-IsSound env call t.key m h
        (record f { sub = record (f.sub) { refresh_timer = stop f.sub.refresh_timer } }),
  )
]
