-- ===== src/Subscription/Progress/Waits.antt =====
-- The methods that wait for the application or for a reply, and what they leave to wait for.
use centrifuge_go.Prelude.{
  ℕ, String, true, false, none, refl, Bool-cases, ◌≡◌, ◌≢◌, ◌⊎◌, inl, inr, arith, nat_key,
  if◌then◌else◌,
}
use centrifuge_go.Codes.{unsubscribed_unauthorized}
use centrifuge_go.Errors.{GoError, Result, ok, err, get_state_error, subscription_unsubscribed}
use centrifuge_go.Protocol.{StreamPosition, SubscribeResult}
use centrifuge_go.Effects.{notify, queue_event}
use centrifuge_go.PushIds.{update_subscription_push_id}
use centrifuge_go.State.{Frame, Env, stop}
use centrifuge_go.Subscription.{
  resubscribe, set_inflight, lock_current_attempt, subscribe_replied, TokenCall, StateCall,
  token_received, continue_async, state_received, get_state_failed, get_state_and_resubscribe,
  emit_error, no_conn_generation, resubscribe_timer_fired, handle_unsubscribe, subscribe_replied,
  move_to_subscribing_locked, send_unsubscribe_locked, invalidate_state, queue_subscribing_locked,
  clear_push_id,
}
use centrifuge_go.Subscription.Progress.Replies.{
  subscribe_failed-GoesOn, subscribe_replied-GoesOn, subscribe_replied-IsOwned,
}
use centrifuge_go.Subscription.Progress.Owners.{
  emit_error-inflight, continue_async-IsOwned, state_received-IsOwned,
}
use centrifuge_go.Subscription.Progress.{
  IsOwned, LeavesOwned, GoesOn, send_current-GoesOn, owned_resubscribe-GoesOn, resubscribe-IsOwned,
  schedule_resubscribe-GoesOn, move_to_unsubscribed_locked-GoesOn, lock_current_attempt-GoesOn,
  idle-GoesOn, landed-IsOwned,
}

token_received-GoesOn :
    (env : Env) (handled : Frame → Frame) (reply : Result String) (attempt invalidations : ℕ)
    (f : Frame)
    → LeavesOwned handled
    → GoesOn (token_received env handled reply attempt invalidations f)
unfolding token_received
token_received-GoesOn env handled (err e) attempt invalidations f k = ground (
  arith,
  idle-GoesOn (set_inflight false f),
  owned_resubscribe-GoesOn env (set_inflight false f) (landed-IsOwned (set_inflight false f) refl),
  subscribe_failed-GoesOn env handled e attempt no_conn_generation (set_inflight false f) k refl,
  move_to_unsubscribed_locked-GoesOn unsubscribed_unauthorized "unauthorized"
      subscription_unsubscribed (set_inflight false f),
)
token_received-GoesOn env handled (ok token) attempt invalidations f k = ground (
  arith,
  idle-GoesOn (set_inflight false f),
  owned_resubscribe-GoesOn env (set_inflight false f) (landed-IsOwned (set_inflight false f) refl),
  move_to_unsubscribed_locked-GoesOn unsubscribed_unauthorized "unauthorized"
      subscription_unsubscribed (set_inflight false f),
  send_current-GoesOn env token attempt invalidations
      (record f { sub = record (f.sub) { token = token } }),
)

continue_async-GoesOn :
    (env : Env) (call : TokenCall) (f : Frame)
    → LeavesOwned call.handled
    → GoesOn (continue_async env call f)
unfolding continue_async
continue_async-GoesOn env call f k =
    let s = f.sub in
    ground (
      arith,
      token_received-GoesOn env call.handled call.reply s.subscribe_attempt s.invalidations
          (call.meanwhile f) k,
      send_current-GoesOn env s.token s.subscribe_attempt s.invalidations f,
    )

get_state_failed-GoesOn :
    (env : Env) (handled : Frame → Frame) (e : GoError) (attempt : ℕ) (f : Frame)
    → LeavesOwned handled
    → f.sub.inflight ≡ false
    → GoesOn (get_state_failed env handled e attempt f)
unfolding get_state_failed
get_state_failed-GoesOn env handled e attempt f k v =
    let told = emit_error (get_state_error e) f in
    let g = handled told in
    ground (
      arith,
      lock_current_attempt-GoesOn env attempt g (k told (emit_error-inflight _ f v)),
      schedule_resubscribe-GoesOn env (lock_current_attempt env attempt g).1,
    )

state_received-GoesOn :
    (env : Env) (handled : Frame → Frame) (reply : Result StreamPosition) (token : TokenCall)
    (attempt invalidations : ℕ) (f : Frame)
    → LeavesOwned handled
    → LeavesOwned token.handled
    → GoesOn (state_received env handled reply token attempt invalidations f)
unfolding state_received
state_received-GoesOn env handled (err e) token attempt invalidations f k l = ground (
  arith,
  idle-GoesOn (set_inflight false f),
  owned_resubscribe-GoesOn env (set_inflight false f) (landed-IsOwned (set_inflight false f) refl),
  get_state_failed-GoesOn env handled e attempt (set_inflight false f) k refl,
)
state_received-GoesOn env handled (ok p) token attempt invalidations f k l = ground (
  arith,
  idle-GoesOn (set_inflight false f),
  owned_resubscribe-GoesOn env (set_inflight false f) (landed-IsOwned (set_inflight false f) refl),
  continue_async-GoesOn env token
      (record f { sub = record (f.sub) { recover = true; offset = p.offset; epoch = p.epoch } }) l,
)

move_to_subscribing_locked-IsOwned :
    (code : ℕ) (reason : String) (f : Frame)
    → IsOwned f
    → IsOwned (move_to_subscribing_locked code reason f)
unfolding move_to_subscribing_locked queue_subscribing_locked notify queue_event IsOwned
move_to_subscribing_locked-IsOwned code reason f v =
    elim (Bool-cases f.sub.handlers.on_subscribing) [
      | inl y ↦ ground (arith, v, y)
      | inr n ↦ ground (arith, v, n)
    ]

invalidate_state-IsOwned : (f : Frame) → IsOwned f → IsOwned (invalidate_state f)
unfolding invalidate_state clear_push_id update_subscription_push_id IsOwned
invalidate_state-IsOwned f v = ground (arith, v)

handle_unsubscribe-GoesOn :
    (env : Env) (code : ℕ) (reason : String) (f : Frame)
    → IsOwned f
    → GoesOn (handle_unsubscribe env code reason f)
unfolding handle_unsubscribe
handle_unsubscribe-GoesOn env code reason f v =
    let sent = if f.sub.inflight then send_unsubscribe_locked env f else f in
    ground (
      arith,
      move_to_unsubscribed_locked-GoesOn code reason subscription_unsubscribed sent,
      owned_resubscribe-GoesOn env (move_to_subscribing_locked code reason f)
          (move_to_subscribing_locked-IsOwned code reason f v),
      owned_resubscribe-GoesOn env (move_to_subscribing_locked code reason (invalidate_state f)) (
          move_to_subscribing_locked-IsOwned code reason (invalidate_state f)
            (invalidate_state-IsOwned f v)),
    )

resubscribe_timer_fired-GoesOn :
    (env : Env) (f : Frame) → IsOwned f → GoesOn f → GoesOn (resubscribe_timer_fired env f)
unfolding resubscribe_timer_fired GoesOn IsOwned
resubscribe_timer_fired-GoesOn env f o v =
    let s = f.sub in
    let f1 = record f { sub = record s { resubscribe_timer = stop s.resubscribe_timer } } in
    ground (arith, o, v, owned_resubscribe-GoesOn env f1)

-- The subscription goes on, and a flag that is set has an owner.
abbrev pub IsLive : Frame → Type 0
IsLive f = GoesOn f × IsOwned f

-- A subscription is never stranded: it is not subscribing, or the client is not connected, or a
-- resubscribe timer is armed, a goroutine goes on with it or makes the client reconnect, or a
-- subscribe command awaits its reply; and if the flag of a subscribe in flight is set, then a
-- goroutine or a command that awaits its reply will reset it. This holds after a `GetToken` or
-- `GetState` step from any subscription `g`, and after the reply to a subscribe, of which the first
-- part leaves out a broken delta, which is reported to the caller. It holds after `resubscribe` if
-- the flag had an owner before. If so, the first part also holds after a pushed unsubscribe, and, if
-- it held before, after the timer fired. It is assumed that OnError leaves an owner of the flag if
-- the flag was reset before it ran; what happens while `GetToken` or `GetState` runs is arbitrary.
pub never_stranded :
    (env : Env) (state : StateCall) (token : TokenCall) (handled : Frame → Frame)
    (reply : Result SubscribeResult) (attempt generation code : ℕ) (reason : String) (f g : Frame)
    → LeavesOwned state.handled
    → LeavesOwned token.handled
    → LeavesOwned handled
    → IsOwned f
    → GoesOn f
    → IsLive (continue_async env token g)
      × IsLive (get_state_and_resubscribe env state token g)
      × (GoesOn (subscribe_replied env handled reply attempt generation g).0
          ⊎ ((subscribe_replied env handled reply attempt generation g).1 ≢ none))
      × IsOwned (subscribe_replied env handled reply attempt generation g).0
      × IsLive (resubscribe env f)
      × GoesOn (handle_unsubscribe env code reason f)
      × GoesOn (resubscribe_timer_fired env f)
unfolding get_state_and_resubscribe
never_stranded env state token handled reply attempt generation code reason f g k l m o v =
    let got = state.meanwhile g in
    let s = g.sub in
    (
      (continue_async-GoesOn env token g l, continue_async-IsOwned env token g l),
      (
        state_received-GoesOn env state.handled state.reply token s.subscribe_attempt
            s.invalidations got k l,
        state_received-IsOwned env state.handled state.reply token s.subscribe_attempt
            s.invalidations got k l,
      ),
      subscribe_replied-GoesOn env handled reply attempt generation g m,
      subscribe_replied-IsOwned env handled reply attempt generation g m,
      (owned_resubscribe-GoesOn env f o, resubscribe-IsOwned env f o),
      handle_unsubscribe-GoesOn env code reason f o,
      resubscribe_timer_fired-GoesOn env f o v,
    )
