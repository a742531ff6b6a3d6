-- ===== src/Subscription/Soundness/Waits.antt =====
-- The methods that wait for the application keep a subscription sound, if what happens during the
-- wait does.
use centrifuge_go.Prelude.{ℕ, String, true, false, arith, nat_key}
use centrifuge_go.Codes.{unsubscribed_unauthorized}
use centrifuge_go.Errors.{
  GoError, Result, ok, err, as_server_error, subscribe_error, get_state_error,
  subscription_unsubscribed,
}
use centrifuge_go.Protocol.{StreamPosition}
use centrifuge_go.State.{Frame, Env}
use centrifuge_go.Subscription.Transitions.{schedule_resubscribe}
use centrifuge_go.Subscription.Resubscribe.{set_inflight}
use centrifuge_go.Subscription.Failure.{
  lock_current_attempt, lock_current_subscribe, subscribe_failed, TokenCall, StateCall,
  token_received, continue_async, state_received, emit_error, no_conn_generation,
  get_state_and_resubscribe, get_state_failed,
}
use centrifuge_go.Subscription.Soundness.{
  KeepsSound, schedule_resubscribe-IsSound, resubscribe-IsSound, send_current-IsSound,
  lock_current_attempt-IsSound, lock_current_subscribe-IsSound, lock_current_attempt-subscribing,
  lock_current_subscribe-subscribing, finish_subscribe_error-IsSound,
  move_to_unsubscribed_locked-IsSound,
}

pub subscribe_failed-IsSound :
    (env : Env) (handled : Frame → Frame) (e : GoError) (attempt generation : ℕ)
    → KeepsSound handled
    → KeepsSound (subscribe_failed env handled e attempt generation)
unfolding subscribe_failed emit_error schedule_resubscribe
subscribe_failed-IsSound env handled e attempt generation k f v =
    let f1 = (lock_current_subscribe env attempt generation f).1 in
    let v1 = lock_current_subscribe-IsSound env attempt generation f v in
    let f2 = (lock_current_subscribe env attempt generation f1).1 in
    let g = handled (emit_error (subscribe_error e) f1) in
    let vg = k (emit_error (subscribe_error e) f1) v1 in
    let f3 = (lock_current_subscribe env attempt generation g).1 in
    let v3 = lock_current_subscribe-IsSound env attempt generation g vg in
    ground (
      arith,
      v1,
      v3,
      lock_current_subscribe-IsSound env attempt generation f1 v1,
      lock_current_subscribe-subscribing env attempt generation f1,
      lock_current_subscribe-subscribing env attempt generation g,
      finish_subscribe_error-IsSound env e (as_server_error e) f3,
    )

pub token_received-IsSound :
    (env : Env) (handled : Frame → Frame) (reply : Result String) (attempt invalidations : ℕ)
    → KeepsSound handled
    → KeepsSound (token_received env handled reply attempt invalidations)
unfolding token_received
token_received-IsSound env handled (err e) attempt invalidations k f v = ground (
  arith,
  resubscribe-IsSound env (set_inflight false f),
  subscribe_failed-IsSound env handled e attempt no_conn_generation k (set_inflight false f),
  move_to_unsubscribed_locked-IsSound unsubscribed_unauthorized "unauthorized"
      subscription_unsubscribed (set_inflight false f),
)
token_received-IsSound env handled (ok token) attempt invalidations k f v = ground (
  arith,
  resubscribe-IsSound env (set_inflight false f),
  move_to_unsubscribed_locked-IsSound unsubscribed_unauthorized "unauthorized"
      subscription_unsubscribed (set_inflight false f),
  send_current-IsSound env token attempt invalidations
      (record f { sub = record (f.sub) { token = token } }),
)

pub continue_async-IsSound :
    (env : Env) (call : TokenCall)
    → KeepsSound call.meanwhile
    → KeepsSound call.handled
    → KeepsSound (continue_async env call)
unfolding continue_async
continue_async-IsSound env call m h f v =
    let s = f.sub in
    ground (
      arith,
      token_received-IsSound env call.handled call.reply s.subscribe_attempt s.invalidations h
          (call.meanwhile f) (m f v),
      send_current-IsSound env s.token s.subscribe_attempt s.invalidations f,
    )

pub get_state_failed-IsSound :
    (env : Env) (handled : Frame → Frame) (e : GoError) (attempt : ℕ)
    → KeepsSound handled
    → KeepsSound (get_state_failed env handled e attempt)
unfolding get_state_failed emit_error
get_state_failed-IsSound env handled e attempt k f v =
    let g = handled (emit_error (get_state_error e) f) in
    let v1 = lock_current_attempt-IsSound env attempt g (k (emit_error (get_state_error e) f) v) in
    ground (
      arith,
      v1,
      lock_current_attempt-subscribing env attempt g,
      schedule_resubscribe-IsSound env (lock_current_attempt env attempt g).1,
    )

state_received-IsSound :
    (env : Env) (handled : Frame → Frame) (reply : Result StreamPosition) (token : TokenCall)
    (attempt invalidations : ℕ)
    → KeepsSound handled
    → KeepsSound token.meanwhile
    → KeepsSound token.handled
    → KeepsSound (state_received env handled reply token attempt invalidations)
unfolding state_received
state_received-IsSound env handled (err e) token attempt invalidations k m h f v = ground (
  arith,
  resubscribe-IsSound env (set_inflight false f),
  get_state_failed-IsSound env handled e attempt k (set_inflight false f),
)
state_received-IsSound env handled (ok p) token attempt invalidations k m h f v = ground (
  arith,
  resubscribe-IsSound env (set_inflight false f),
  continue_async-IsSound env token m h
      (record f { sub = record (f.sub) { recover = true; offset = p.offset; epoch = p.epoch } }),
)

pub get_state_and_resubscribe-IsSound :
    (env : Env) (call : StateCall) (token : TokenCall)
    → KeepsSound call.meanwhile
    → KeepsSound call.handled
    → KeepsSound token.meanwhile
    → KeepsSound token.handled
    → KeepsSound (get_state_and_resubscribe env call token)
unfolding get_state_and_resubscribe
get_state_and_resubscribe-IsSound env call token c k m h f v =
    state_received-IsSound env call.handled call.reply token f.sub.subscribe_attempt
      f.sub.invalidations k m h (call.meanwhile f) (c f v)
