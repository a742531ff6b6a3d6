-- ===== src/Subscription/Lifecycle/Waits.antt =====
-- The methods of a subscription that wait for the application, and the queued events.
use centrifuge_go.Prelude.{ℕ, String, true, false, Option, none, some, arith, nat_key, string_key}
use centrifuge_go.Codes.{unsubscribed_unauthorized}
use centrifuge_go.Errors.{
  GoError, Result, ok, err, ServerError, as_server_error, subscribe_error, get_state_error,
  subscription_unsubscribed,
}
use centrifuge_go.Protocol.{StreamPosition}
use centrifuge_go.State.{Frame, Env}
use centrifuge_go.Subscription.{
  lock_current_attempt, lock_current_subscribe, finish_subscribe_error, subscribe_failed, TokenCall,
  StateCall, token_received, continue_async, state_received, emit_error, no_conn_generation,
  get_state_and_resubscribe, get_state_failed, set_inflight, schedule_resubscribe,
}
use centrifuge_go.Subscription.Lifecycle.{IsTold, KeepsTold}
use centrifuge_go.Subscription.Lifecycle.Moves.{
  move_to_unsubscribed_locked-IsTold, schedule_resubscribe-IsTold, send_current-IsTold,
  resubscribe-IsTold, emit_error-IsTold,
}

lock_current_attempt-IsTold :
    (env : Env) (attempt : ℕ) (f : Frame) → IsTold f → IsTold (lock_current_attempt env attempt f).1
unfolding lock_current_attempt
lock_current_attempt-IsTold env attempt f v = ground (arith, v, resubscribe-IsTold env f)

lock_current_subscribe-IsTold :
    (env : Env) (attempt generation : ℕ) (f : Frame)
    → IsTold f
    → IsTold (lock_current_subscribe env attempt generation f).1
unfolding lock_current_subscribe
lock_current_subscribe-IsTold env attempt generation f v =
    ground (arith, v, resubscribe-IsTold env f, lock_current_attempt-IsTold env attempt f)

finish_subscribe_error-IsTold :
    (env : Env) (e : GoError) (se : Option ServerError)
    → KeepsTold (finish_subscribe_error env e se)
unfolding finish_subscribe_error schedule_resubscribe
finish_subscribe_error-IsTold env e none f v = ground (arith, v)
finish_subscribe_error-IsTold env e (some se) f v =
    ground (arith, v, move_to_unsubscribed_locked-IsTold se.code se.message e f)

pub subscribe_failed-IsTold :
    (env : Env) (handled : Frame → Frame) (e : GoError) (attempt generation : ℕ)
    → KeepsTold handled
    → KeepsTold (subscribe_failed env handled e attempt generation)
unfolding subscribe_failed schedule_resubscribe
subscribe_failed-IsTold env handled e attempt generation k f v =
    let f1 = (lock_current_subscribe env attempt generation f).1 in
    let v1 = lock_current_subscribe-IsTold env attempt generation f v in
    let g = handled (emit_error (subscribe_error e) f1) in
    let vg = k (emit_error (subscribe_error e) f1) (emit_error-IsTold (subscribe_error e) f1 v1) in
    let f3 = (lock_current_subscribe env attempt generation g).1 in
    let v3 = lock_current_subscribe-IsTold env attempt generation g vg in
    ground (
      arith,
      v1,
      v3,
      lock_current_subscribe-IsTold env attempt generation f1 v1,
      finish_subscribe_error-IsTold env e (as_server_error e) f3 v3,
    )

token_received-IsTold :
    (env : Env) (handled : Frame → Frame) (reply : Result String) (attempt invalidations : ℕ)
    → KeepsTold handled
    → KeepsTold (token_received env handled reply attempt invalidations)
unfolding token_received
token_received-IsTold env handled (err e) attempt invalidations k f v = ground (
  arith,
  v,
  resubscribe-IsTold env (set_inflight false f),
  subscribe_failed-IsTold env handled e attempt no_conn_generation k (set_inflight false f),
  move_to_unsubscribed_locked-IsTold unsubscribed_unauthorized "unauthorized"
      subscription_unsubscribed (set_inflight false f),
)
token_received-IsTold env handled (ok token) attempt invalidations k f v = ground (
  arith,
  v,
  resubscribe-IsTold env (set_inflight false f),
  move_to_unsubscribed_locked-IsTold unsubscribed_unauthorized "unauthorized"
      subscription_unsubscribed (set_inflight false f),
  send_current-IsTold env token attempt invalidations
      (record f { sub = record (f.sub) { token = token } }),
)

pub continue_async-IsTold :
    (env : Env) (call : TokenCall)
    → KeepsTold call.meanwhile
    → KeepsTold call.handled
    → KeepsTold (continue_async env call)
unfolding continue_async
continue_async-IsTold env call m h f v =
    let s = f.sub in
    ground (
      arith,
      token_received-IsTold env call.handled call.reply s.subscribe_attempt s.invalidations h
          (call.meanwhile f) (m f v),
      send_current-IsTold env s.token s.subscribe_attempt s.invalidations f v,
    )

get_state_failed-IsTold :
    (env : Env) (handled : Frame → Frame) (e : GoError) (attempt : ℕ)
    → KeepsTold handled
    → KeepsTold (get_state_failed env handled e attempt)
unfolding get_state_failed
get_state_failed-IsTold env handled e attempt k f v =
    let g = handled (emit_error (get_state_error e) f) in
    let v1 =
      lock_current_attempt-IsTold env attempt g
        (k (emit_error (get_state_error e) f) (emit_error-IsTold (get_state_error e) f v)) in
    ground (arith, v1, schedule_resubscribe-IsTold env (lock_current_attempt env attempt g).1 v1)

state_received-IsTold :
    (env : Env) (handled : Frame → Frame) (reply : Result StreamPosition) (token : TokenCall)
    (attempt invalidations : ℕ)
    → KeepsTold handled
    → KeepsTold token.meanwhile
    → KeepsTold token.handled
    → KeepsTold (state_received env handled reply token attempt invalidations)
unfolding state_received
state_received-IsTold env handled (err e) token attempt invalidations k m h f v = ground (
  arith,
  v,
  resubscribe-IsTold env (set_inflight false f),
  get_state_failed-IsTold env handled e attempt k (set_inflight false f),
)
state_received-IsTold env handled (ok p) token attempt invalidations k m h f v = ground (
  arith,
  v,
  resubscribe-IsTold env (set_inflight false f),
  continue_async-IsTold env token m h
      (record f { sub = record (f.sub) { recover = true; offset = p.offset; epoch = p.epoch } }),
)

pub get_state_and_resubscribe-IsTold :
    (env : Env) (call : StateCall) (token : TokenCall)
    → KeepsTold call.meanwhile
    → KeepsTold call.handled
    → KeepsTold token.meanwhile
    → KeepsTold token.handled
    → KeepsTold (get_state_and_resubscribe env call token)
unfolding get_state_and_resubscribe
get_state_and_resubscribe-IsTold env call token c k m h f v =
    state_received-IsTold env call.handled call.reply token f.sub.subscribe_attempt
      f.sub.invalidations k m h (call.meanwhile f) (c f v)
