-- ===== src/Subscription/Progress/Owners.antt =====
-- The in-flight flag in the methods that wait for the application: who resets it.
use centrifuge_go.Prelude.{
  ℕ, String, true, false, List, [], ◌∷◌, ◌++◌, none, some, Option, refl, ◌≡◌, arith,
}
use centrifuge_go.Codes.{unsubscribed_unauthorized}
use centrifuge_go.Errors.{
  GoError, ServerError, Result, ok, err, as_server_error, subscribe_error, get_state_error,
  subscription_unsubscribed,
}
use centrifuge_go.Effects.{spawn, notify, queue_event, on_client}
use centrifuge_go.PushIds.{update_subscription_push_id}
use centrifuge_go.Protocol.{StreamPosition}
use centrifuge_go.State.{Frame, Env, Task, disconnect_task}
use centrifuge_go.Subscription.{
  set_inflight, schedule_resubscribe, move_to_unsubscribed_locked, resolve_sub_futures,
  clear_push_id, sub_future_tasks, lock_current_attempt, lock_current_subscribe, emit_error,
  finish_subscribe_error, subscribe_failed, forget_position, subscribe_timed_out, TokenCall,
  token_received, continue_async, state_received, get_state_failed, no_conn_generation,
}
use centrifuge_go.Subscription.Progress.{
  has_owner, IsOwned, LeavesOwned, landed-IsOwned, resubscribe-IsOwned, send_current-IsOwned,
}

has_owner-more : (a : ℕ) (xs ys : List Task) → has_owner a xs ≡ true → has_owner a (xs ++ ys) ≡ true
unfolding has_owner
has_owner-more a [] ys h = ground (arith, h)
has_owner-more a (x ∷ xs) ys h = ground (arith, h, has_owner-more a xs ys)

cleared_token-IsOwned :
    (f : Frame) → IsOwned f → IsOwned (record f { sub = record (f.sub) { token = "" } })
unfolding IsOwned
cleared_token-IsOwned f v = v

pub schedule_resubscribe-IsOwned :
    (env : Env) (f : Frame) → IsOwned f → IsOwned (schedule_resubscribe env f)
unfolding schedule_resubscribe IsOwned
schedule_resubscribe-IsOwned env f v = ground (arith, v)

move_to_unsubscribed_locked-IsOwned :
    (code : ℕ) (reason : String) (e : GoError) (f : Frame)
    → IsOwned f
    → IsOwned (move_to_unsubscribed_locked code reason e f)
unfolding move_to_unsubscribed_locked resolve_sub_futures clear_push_id update_subscription_push_id
    notify queue_event IsOwned
move_to_unsubscribed_locked-IsOwned code reason e f v = ground (
  arith,
  v,
  has_owner-more f.sub.address f.client.tasks (sub_future_tasks (some e) f.sub.sub_futures),
)

finish_subscribe_error-IsOwned :
    (env : Env) (e : GoError) (se : Option ServerError) (f : Frame)
    → IsOwned f
    → IsOwned (finish_subscribe_error env e se f)
unfolding finish_subscribe_error
finish_subscribe_error-IsOwned env e none f v = schedule_resubscribe-IsOwned env f v
finish_subscribe_error-IsOwned env e (some se) f v =
    let cleared = record f { sub = record (f.sub) { token = "" } } in
    ground (
      arith,
      schedule_resubscribe-IsOwned env f v,
      schedule_resubscribe-IsOwned env cleared (cleared_token-IsOwned f v),
      move_to_unsubscribed_locked-IsOwned se.code se.message e f v,
    )

lock_current_attempt-IsOwned :
    (env : Env) (attempt : ℕ) (f : Frame)
    → IsOwned f
    → IsOwned (lock_current_attempt env attempt f).1
unfolding lock_current_attempt
lock_current_attempt-IsOwned env attempt f v = ground (arith, v, resubscribe-IsOwned env f v)

lock_current_subscribe-IsOwned :
    (env : Env) (attempt generation : ℕ) (f : Frame)
    → IsOwned f
    → IsOwned (lock_current_subscribe env attempt generation f).1
unfolding lock_current_subscribe
lock_current_subscribe-IsOwned env attempt generation f v =
    ground (arith, v, resubscribe-IsOwned env f v, lock_current_attempt-IsOwned env attempt f v)

pub lock_current_subscribe-keeps :
    (env : Env) (attempt generation : ℕ) (f : Frame)
    → (lock_current_subscribe env attempt generation f).0 ≡ true
    → (lock_current_subscribe env attempt generation f).1 ≡ f
unfolding lock_current_subscribe lock_current_attempt
lock_current_subscribe-keeps env attempt generation f h = ground (arith, h)

pub emit_error-inflight :
    (e : GoError) (f : Frame) → f.sub.inflight ≡ false → (emit_error e f).sub.inflight ≡ false
unfolding emit_error
emit_error-inflight e f h = h

pub subscribe_failed-IsOwned :
    (env : Env) (handled : Frame → Frame) (e : GoError) (attempt generation : ℕ) (f : Frame)
    → LeavesOwned handled
    → f.sub.inflight ≡ false
    → IsOwned (subscribe_failed env handled e attempt generation f)
unfolding subscribe_failed
subscribe_failed-IsOwned env handled e attempt generation f k v =
    let se = as_server_error e in
    let told = emit_error (subscribe_error e) f in
    let f2 = (lock_current_subscribe env attempt generation f).1 in
    let g = handled told in
    let f3 = (lock_current_subscribe env attempt generation g).1 in
    let first = lock_current_subscribe-IsOwned env attempt generation f (landed-IsOwned f v) in
    let third =
      lock_current_subscribe-IsOwned env attempt generation g
        (k told (emit_error-inflight (subscribe_error e) f v)) in
    let timed_out = on_client (spawn (disconnect_task none subscribe_timed_out)) f in
    let forgotten = record f { sub = forget_position f.sub } in
    ground (
      arith,
      lock_current_subscribe-keeps env attempt generation f,
      first,
      third,
      landed-IsOwned timed_out v,
      schedule_resubscribe-IsOwned env forgotten (landed-IsOwned forgotten v),
      finish_subscribe_error-IsOwned env e se f3 third,
    )

unauthorized-IsOwned :
    (f : Frame)
    → IsOwned (
        move_to_unsubscribed_locked unsubscribed_unauthorized "unauthorized"
          subscription_unsubscribed
          (set_inflight false f))
unauthorized-IsOwned f =
    move_to_unsubscribed_locked-IsOwned unsubscribed_unauthorized "unauthorized"
      subscription_unsubscribed (set_inflight false f) (landed-IsOwned (set_inflight false f) refl)

token_received-IsOwned :
    (env : Env) (handled : Frame → Frame) (reply : Result String) (attempt invalidations : ℕ)
    (f : Frame)
    → LeavesOwned handled
    → IsOwned (token_received env handled reply attempt invalidations f)
unfolding token_received
token_received-IsOwned env handled (err e) attempt invalidations f k =
    let stopped = set_inflight false f in
    let owned = landed-IsOwned stopped refl in
    ground (
      arith,
      owned,
      resubscribe-IsOwned env stopped owned,
      subscribe_failed-IsOwned env handled e attempt no_conn_generation stopped k refl,
      unauthorized-IsOwned f,
    )
token_received-IsOwned env handled (ok token) attempt invalidations f k =
    let stopped = set_inflight false f in
    let owned = landed-IsOwned stopped refl in
    ground (
      arith,
      owned,
      resubscribe-IsOwned env stopped owned,
      unauthorized-IsOwned f,
      send_current-IsOwned env token attempt invalidations
          (record f { sub = record (f.sub) { token = token } }),
    )

pub continue_async-IsOwned :
    (env : Env) (call : TokenCall) (f : Frame)
    → LeavesOwned call.handled
    → IsOwned (continue_async env call f)
unfolding continue_async
continue_async-IsOwned env call f k =
    let s = f.sub in
    ground (
      arith,
      token_received-IsOwned env call.handled call.reply s.subscribe_attempt s.invalidations
          (call.meanwhile f) k,
      send_current-IsOwned env s.token s.subscribe_attempt s.invalidations f,
    )

get_state_failed-IsOwned :
    (env : Env) (handled : Frame → Frame) (e : GoError) (attempt : ℕ) (f : Frame)
    → LeavesOwned handled
    → f.sub.inflight ≡ false
    → IsOwned (get_state_failed env handled e attempt f)
unfolding get_state_failed
get_state_failed-IsOwned env handled e attempt f k v =
    let told = emit_error (get_state_error e) f in
    let g = handled told in
    let locked =
      lock_current_attempt-IsOwned env attempt g
        (k told (emit_error-inflight (get_state_error e) f v)) in
    ground (
      arith,
      locked,
      schedule_resubscribe-IsOwned env (lock_current_attempt env attempt g).1 locked,
    )

pub state_received-IsOwned :
    (env : Env) (handled : Frame → Frame) (reply : Result StreamPosition) (token : TokenCall)
    (attempt invalidations : ℕ) (f : Frame)
    → LeavesOwned handled
    → LeavesOwned token.handled
    → IsOwned (state_received env handled reply token attempt invalidations f)
unfolding state_received
state_received-IsOwned env handled (err e) token attempt invalidations f k l =
    let stopped = set_inflight false f in
    let owned = landed-IsOwned stopped refl in
    ground (
      arith,
      owned,
      resubscribe-IsOwned env stopped owned,
      get_state_failed-IsOwned env handled e attempt stopped k refl,
    )
state_received-IsOwned env handled (ok p) token attempt invalidations f k l =
    let stopped = set_inflight false f in
    let owned = landed-IsOwned stopped refl in
    ground (
      arith,
      owned,
      resubscribe-IsOwned env stopped owned,
      continue_async-IsOwned env token
          (record f { sub = record (f.sub) { recover = true; offset = p.offset; epoch = p.epoch } })
          l,
    )
