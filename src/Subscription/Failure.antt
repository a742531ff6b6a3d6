-- ===== src/Subscription/Failure.antt =====
-- What a subscription does when a subscribe fails or the application answers `GetState` or
-- `GetToken`. The waits are `meanwhile`, `handled` (OnError runs), and may change anything.
use centrifuge_go.Prelude.{
  ℕ, String, Bool, true, false, Option, none, some, ◌==◌, nat_key, ◌&&◌, ◌||◌, not, if◌then◌else◌,
  is_empty,
}
use centrifuge_go.Errors.{
  GoError, ServerError, Result, ok, err, subscription_unsubscribed, subscribe_error,
  get_state_error, is_timeout, is_unauthorized, as_server_error,
}
use centrifuge_go.Codes.{
  connecting_subscribe_timeout, unsubscribed_unauthorized, error_unrecoverable_position,
  error_token_expired,
}
use centrifuge_go.Protocol.{StreamPosition}
use centrifuge_go.Effects.{spawn, notify_sync, on_client}
use centrifuge_go.State.{
  Subscription, Frame, Env, Disconnect, is_subscribing, disconnect_task, on_sub_error,
}
use centrifuge_go.Subscription.Transitions.{move_to_unsubscribed_locked, schedule_resubscribe}
use centrifuge_go.Subscription.Resubscribe.{set_inflight, resubscribe, send_current}

-- -1, as a bit pattern.
abbrev pub no_conn_generation : ℕ
no_conn_generation = 18446744073709551615

abbrev pub is_current_attempt : ℕ → Frame → Bool
is_current_attempt attempt f = is_subscribing f.sub.state && (f.sub.subscribe_attempt == attempt)

-- What the two `lockCurrent…` methods do if the attempt is outdated.
abbrev pub outdated : Env → Frame → Frame
outdated env f = if is_subscribing f.sub.state then resubscribe env f else f

-- `lockCurrentAttempt`: the first part says whether the lock is kept.
unfoldable pub lock_current_attempt : Env → ℕ → Frame → Bool × Frame
lock_current_attempt env attempt f =
    if is_current_attempt attempt f then (true, f) else (false, outdated env f)

unfoldable pub lock_current_subscribe : Env → ℕ → ℕ → Frame → Bool × Frame
lock_current_subscribe env attempt generation f =
    if generation == no_conn_generation
    then lock_current_attempt env attempt f
    else if is_current_attempt attempt f && (f.client.conn_generation == generation)
    then (true, f)
    else (false, outdated env f)

unfoldable pub emit_error : GoError → Frame → Frame
emit_error e f = on_client (notify_sync f.sub.handlers.on_error (on_sub_error f.sub.channel e)) f

abbrev pub subscribe_timed_out : Disconnect
subscribe_timed_out = record {
  code = connecting_subscribe_timeout;
  reason = "subscribe timeout";
  reconnect = true;
}

-- Error 112 with `GetState`: forget the position, so that the next attempt asks for a new one.
abbrev pub forget_position : Subscription → Subscription
forget_position s = record s { recover = false; offset = 0; epoch = ""; prev_data = none }

abbrev pub is_unrecoverable : Option ServerError → Bool
is_unrecoverable none = false
is_unrecoverable (some e) = e.code == error_unrecoverable_position

-- The end of `subscribeError`, in the lock hold after OnError ran.
unfoldable pub finish_subscribe_error : Env → GoError → Option ServerError → Frame → Frame
finish_subscribe_error env e none f = schedule_resubscribe env f
finish_subscribe_error env e (some se) f =
    if not (se.code == error_token_expired) && not se.temporary
    then move_to_unsubscribed_locked se.code se.message e f
    else schedule_resubscribe env (
        if se.code == error_token_expired
        then record f { sub = record (f.sub) { token = "" } }
        else f)

unfoldable pub subscribe_failed : Env → (Frame → Frame) → GoError → ℕ → ℕ → Frame → Frame
unfolding spawn
subscribe_failed env handled e attempt generation f =
    let se = as_server_error e in
    let (current, f1) = lock_current_subscribe env attempt generation f in
    let (again, f2) = lock_current_subscribe env attempt generation f1 in
    let (still, f3) =
      lock_current_subscribe env attempt generation (handled (emit_error (subscribe_error e) f1)) in
    if not current
    then f1
    else if is_timeout e
    then on_client (spawn (disconnect_task none subscribe_timed_out)) f1
    else if is_unrecoverable se && f1.sub.has_get_state
    then (if again
        then schedule_resubscribe env (record f2 { sub = forget_position f2.sub })
        else f2)
    else if still
    then finish_subscribe_error env e se f3
    else f3

-- `continueResubscribe(true)` after `GetToken` returned `reply`; `handled` is OnError.
unfoldable pub token_received : Env → (Frame → Frame) → Result String → ℕ → ℕ → Frame → Frame
token_received env handled reply attempt invalidations f =
    let s = f.sub in
    let stopped = set_inflight false f in
    let unauthorized_now =
      move_to_unsubscribed_locked unsubscribed_unauthorized "unauthorized" subscription_unsubscribed
        stopped in
    if not (is_subscribing s.state)
    then stopped
    else if not (s.subscribe_attempt == attempt) || not (s.invalidations == invalidations)
    then resubscribe env stopped
    else elim reply [
      | err e ↦
          if is_unauthorized e
          then unauthorized_now
          else subscribe_failed env handled e attempt no_conn_generation stopped
      | ok token ↦
          if is_empty token
          then unauthorized_now
          else send_current env token attempt invalidations
              (record f { sub = record s { token = token } })
    ]

-- What the application does during a call of `GetToken`, and its answer.
pub record TokenCall : Type 0 where
  pub meanwhile : Frame → Frame
  pub reply : Result String
  pub handled : Frame → Frame

-- `continueResubscribe(true)`.
unfoldable pub continue_async : Env → TokenCall → Frame → Frame
continue_async env call f =
    let s = f.sub in
    if is_empty s.token && s.has_get_token
    then token_received env call.handled call.reply s.subscribe_attempt s.invalidations
        (call.meanwhile f)
    else send_current env s.token s.subscribe_attempt s.invalidations f

-- What the application does during a call of `GetState`, and its answer.
pub record StateCall : Type 0 where
  pub meanwhile : Frame → Frame
  pub reply : Result StreamPosition
  pub handled : Frame → Frame

-- `GetState` failed: OnError runs, and the subscribe is retried later if it is still current.
unfoldable pub get_state_failed : Env → (Frame → Frame) → GoError → ℕ → Frame → Frame
get_state_failed env handled e attempt f =
    let (current, f1) =
      lock_current_attempt env attempt (handled (emit_error (get_state_error e) f)) in
    if current then schedule_resubscribe env f1 else f1

-- `getStateAndResubscribe` after `GetState` returned.
unfoldable pub state_received :
    Env → (Frame → Frame) → Result StreamPosition → TokenCall → ℕ → ℕ → Frame → Frame
state_received env handled reply token_call attempt invalidations f =
    let s = f.sub in
    let stopped = set_inflight false f in
    if not (is_subscribing s.state)
    then stopped
    else if not (s.subscribe_attempt == attempt) || not (s.invalidations == invalidations)
    then resubscribe env stopped
    else elim reply [
      | err e ↦ get_state_failed env handled e attempt stopped
      | ok position ↦ continue_async env token_call (record f {
        sub = record s { recover = true; offset = position.offset; epoch = position.epoch };
      })
    ]

unfoldable pub get_state_and_resubscribe : Env → StateCall → TokenCall → Frame → Frame
get_state_and_resubscribe env call token_call f =
    state_received env call.handled call.reply token_call f.sub.subscribe_attempt
      f.sub.invalidations (call.meanwhile f)
