-- ===== src/Subscription/Soundness.antt =====
-- What holds of a subscription between two lock holds, and that each method keeps it.
pub mod Waits
pub mod Sessions
pub mod Refreshes
pub mod Runs
use centrifuge_go.Prelude.{
  ℕ, String, Bool, true, false, List, [], ◌∷◌, Option, none, some, ◌≡◌, refl, ◌⊎◌, inl, inr, arith,
  ◌==◌, nat_key, Bool-cases, is_empty, ◌&&◌,
}
use centrifuge_go.Errors.{GoError, ServerError, Result, ok, err, as_server_error, is_unauthorized}
use centrifuge_go.Codes.{subscribing_subscribe_called}
use centrifuge_go.Protocol.{StreamPosition, WirePublication, Publication, SubscribeResult}
use centrifuge_go.State.{
  Subscription, Frame, Env, SubState, ProtocolType, unsubscribed, subscribing, subscribed, stop,
  is_armed, is_subscribing,
}
use centrifuge_go.Subscription.Transitions.{
  move_to_unsubscribed_locked, move_to_subscribing_locked, queue_subscribing_locked,
  schedule_resubscribe, unsubscribe, send_unsubscribe_locked,
}
use centrifuge_go.Subscription.Resubscribe.{
  set_inflight, resubscribe, subscribe, send_current, continue_sync,
}
use centrifuge_go.Subscription.Failure.{
  lock_current_attempt, lock_current_subscribe, finish_subscribe_error, subscribe_failed, TokenCall,
  StateCall, token_received, continue_async, state_received, emit_error,
}
use centrifuge_go.Subscription.Delta.{apply_delta_locked, apply_recovered, adopt_position}

-- Timers are armed only in the state that they serve, calls wait only while subscribing, and an
-- unsubscribed subscription has no numeric channel id.
pub record IsSound (s : Subscription) : Type 0 where
  pub retries : is_armed s.resubscribe_timer ≡ true → s.state ≡ subscribing
  pub refreshes : is_armed s.refresh_timer ≡ true → s.state ≡ subscribed
  pub waits : (s.sub_futures ≡ []) ⊎ (s.state ≡ subscribing)
  pub unrouted : s.state ≡ unsubscribed → s.push_id ≡ 0

-- What a method may rely on for the time that it waits.
abbrev pub KeepsSound : (Frame → Frame) → Type 0
KeepsSound g = (f : Frame) → IsSound f.sub → IsSound (g f).sub

pub move_to_unsubscribed_locked-IsSound :
    (code : ℕ) (reason : String) (e : GoError) (f : Frame)
    → IsSound (move_to_unsubscribed_locked code reason e f).sub
unfolding move_to_unsubscribed_locked
move_to_unsubscribed_locked-IsSound code reason e f = ground arith

pub move_to_subscribing_locked-IsSound :
    (code : ℕ) (reason : String) → KeepsSound (move_to_subscribing_locked code reason)
unfolding move_to_subscribing_locked
move_to_subscribing_locked-IsSound code reason f v = ground arith

pub schedule_resubscribe-IsSound :
    (env : Env) (f : Frame)
    → f.sub.state ≡ subscribing
    → IsSound f.sub
    → IsSound (schedule_resubscribe env f).sub
unfolding schedule_resubscribe
schedule_resubscribe-IsSound env f e v = ground arith

pub send_current-IsSound :
    (env : Env) (token : String) (attempt invalidations : ℕ)
    → KeepsSound (send_current env token attempt invalidations)
unfolding send_current
send_current-IsSound env token attempt invalidations f v = ground arith

pub resubscribe-IsSound : (env : Env) → KeepsSound (resubscribe env)
unfolding resubscribe continue_sync
resubscribe-IsSound env f v = ground (
  arith,
  send_current-IsSound env f.sub.token f.sub.subscribe_attempt f.sub.invalidations
      (set_inflight true f),
)

pub subscribe-IsSound :
    (env : Env) (registered : Bool) (f : Frame)
    → IsSound f.sub
    → IsSound (subscribe env registered f).0.sub
unfolding subscribe queue_subscribing_locked
subscribe-IsSound env registered f v = ground (
  arith,
  resubscribe-IsSound env (
      queue_subscribing_locked subscribing_subscribe_called "subscribe called"
        (record f { sub = record (f.sub) { state = subscribing } })),
)

pub unsubscribe-IsSound :
    (env : Env) (f : Frame) → IsSound f.sub → IsSound (unsubscribe env f).0.sub
unfolding unsubscribe move_to_unsubscribed_locked
unsubscribe-IsSound env f v = ground arith

pub lock_current_attempt-IsSound :
    (env : Env) (attempt : ℕ) (f : Frame)
    → IsSound f.sub
    → IsSound (lock_current_attempt env attempt f).1.sub
unfolding lock_current_attempt
lock_current_attempt-IsSound env attempt f v = ground (arith, resubscribe-IsSound env f)

pub lock_current_subscribe-IsSound :
    (env : Env) (attempt generation : ℕ) (f : Frame)
    → IsSound f.sub
    → IsSound (lock_current_subscribe env attempt generation f).1.sub
unfolding lock_current_subscribe
lock_current_subscribe-IsSound env attempt generation f v =
    ground (arith, resubscribe-IsSound env f, lock_current_attempt-IsSound env attempt f)

-- The lock is kept only while the subscription is subscribing.
pub lock_current_attempt-subscribing :
    (env : Env) (attempt : ℕ) (f : Frame)
    → (lock_current_attempt env attempt f).0 ≡ true
    → (lock_current_attempt env attempt f).1.sub.state ≡ subscribing
unfolding lock_current_attempt
lock_current_attempt-subscribing env attempt f h = ground arith

pub lock_current_subscribe-subscribing :
    (env : Env) (attempt generation : ℕ) (f : Frame)
    → (lock_current_subscribe env attempt generation f).0 ≡ true
    → (lock_current_subscribe env attempt generation f).1.sub.state ≡ subscribing
unfolding lock_current_subscribe
lock_current_subscribe-subscribing env attempt generation f h =
    ground (arith, lock_current_attempt-subscribing env attempt f)

pub finish_subscribe_error-IsSound :
    (env : Env) (e : GoError) (se : Option ServerError) (f : Frame)
    → f.sub.state ≡ subscribing
    → IsSound f.sub
    → IsSound (finish_subscribe_error env e se f).sub
unfolding finish_subscribe_error move_to_unsubscribed_locked schedule_resubscribe
finish_subscribe_error-IsSound env e none f h v = ground arith
finish_subscribe_error-IsSound env e (some se) f h v = ground arith
