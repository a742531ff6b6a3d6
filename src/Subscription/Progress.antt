-- ===== src/Subscription/Progress.antt =====
-- What a subscription that is subscribing waits for, and the methods that run no handler.
pub mod Owners
pub mod Replies
pub mod Waits
use centrifuge_go.Prelude.{
  ℕ, String, Bool, true, false, List, [], ◌∷◌, ◌++◌, Option, none, some, ◌≡◌, refl, ◌≢◌, ◌⊎◌, inl,
  inr, arith, ◌||◌, ◌==◌, nat_key, Option-cases, ap, subst, sym, lookup, if◌then◌else◌,
}
use centrifuge_go.Codes.{unsubscribed_unauthorized, unsubscribed_state_invalidated}
use centrifuge_go.Errors.{
  GoError, ServerError, Result, ok, err, as_server_error, subscribe_error, get_state_error,
  subscription_unsubscribed,
}
use centrifuge_go.Effects.{spawn, on_client}
use centrifuge_go.Protocol.{StreamPosition, SubscribeResult, WirePublication, Publication}
use centrifuge_go.Requests.{send_subscribe, next_cmd_id, reply_result_of}
use centrifuge_go.Requests.Table.{send_async-lookup}
use centrifuge_go.State.{
  Callback, Pending, Command, SubscribeRequest, subscribe_req, subscribe_cb, Client, Frame, Env,
  Task, disconnect_task, resubscribe_task, get_state_task, continue_task, subscribing, subscribed,
  is_armed, stop,
}
use centrifuge_go.Subscription.{
  resubscribe, subscribe_sent, continue_sync, subscribe_request, send_current, set_inflight,
  schedule_resubscribe, lock_current_attempt, lock_current_subscribe, finish_subscribe_error,
  subscribe_failed, subscribe_replied, move_to_subscribed, become_subscribed, with_result,
  TokenCall, StateCall, token_received, continue_async, state_received, get_state_failed,
  get_state_and_resubscribe, emit_error, no_conn_generation, move_to_unsubscribed_locked,
  resubscribe_timer_fired, handle_unsubscribe, apply_recovered, Applied-cases, schedule_sub_refresh,
  resolve_sub_futures, forget_position, subscribe_timed_out, subscribe_replied,
  move_to_subscribing_locked, send_unsubscribe_locked, invalidate_state,
}

-- A goroutine that goes on with a subscribe, starts a new one, or makes the client reconnect.
abbrev is_retry : ℕ → Task → Bool
is_retry a (resubscribe_task b) = b == a
is_retry a (get_state_task b) = b == a
is_retry a (continue_task b) = b == a
is_retry a (disconnect_task t d) = d.reconnect
is_retry a _ = false

pub has_retry : ℕ → List Task → Bool
has_retry a [] = false
has_retry a (t ∷ tasks) = is_retry a t || has_retry a tasks

has_retry-append :
    (a : ℕ) (tasks : List Task) (t : Task)
    → has_retry a (tasks ++ (t ∷ [])) ≡ has_retry a tasks || is_retry a t
unfolding has_retry
has_retry-append a [] t = ground arith
has_retry-append a (x ∷ tasks) t = ground (arith, has_retry-append a tasks t)

-- A command is in the request table whose callback is a subscribe of the subscription at `a`.
abbrev is_subscribe_cb : ℕ → Callback → Bool
is_subscribe_cb a (subscribe_cb b attempt generation) = b == a
is_subscribe_cb a _ = false

abbrev is_subscribe : ℕ → Option Pending → Bool
is_subscribe a none = false
is_subscribe a (some p) = is_subscribe_cb a p.cb

unfoldable pub AwaitsReply : ℕ → List (ℕ × Pending) → Type 0
AwaitsReply a requests = (id : ℕ) × (is_subscribe a (lookup id requests) ≡ true)

-- The subscription has nothing to wait for, or something is left that goes on with it.
unfoldable pub GoesOn : Frame → Type 0
GoesOn f =
    (f.sub.state ≢ subscribing)
    ⊎ (f.client.connected ≡ false)
    ⊎ (is_armed f.sub.resubscribe_timer ≡ true)
    ⊎ (has_retry f.sub.address f.client.tasks ≡ true)
    ⊎ AwaitsReply f.sub.address f.client.requests

-- A goroutine that goes on with a subscribe that is in flight: it resets the flag or sends.
abbrev is_owner : ℕ → Task → Bool
is_owner a (get_state_task b) = b == a
is_owner a (continue_task b) = b == a
is_owner a _ = false

pub has_owner : ℕ → List Task → Bool
has_owner a [] = false
has_owner a (t ∷ tasks) = is_owner a t || has_owner a tasks

has_owner-append :
    (a : ℕ) (tasks : List Task) (t : Task)
    → has_owner a (tasks ++ (t ∷ [])) ≡ has_owner a tasks || is_owner a t
unfolding has_owner
has_owner-append a [] t = ground arith
has_owner-append a (x ∷ tasks) t = ground (arith, has_owner-append a tasks t)

owner-retries : (a : ℕ) (tasks : List Task) → has_owner a tasks ≡ true → has_retry a tasks ≡ true
unfolding has_owner has_retry
owner-retries a [] h = ground (arith, h)
owner-retries a (resubscribe_task b ∷ tasks) h = ground (arith, h, owner-retries a tasks)
owner-retries a (get_state_task b ∷ tasks) h = ground (arith, h, owner-retries a tasks)
owner-retries a (continue_task b ∷ tasks) h = ground (arith, h, owner-retries a tasks)
owner-retries a (t ∷ tasks) h = ground (arith, h, owner-retries a tasks)

-- If the in-flight flag is set, a goroutine or the callback of a subscribe command will reset it.
unfoldable pub IsOwned : Frame → Type 0
IsOwned f =
    (f.sub.inflight ≡ false)
    ⊎ (has_owner f.sub.address f.client.tasks ≡ true)
    ⊎ AwaitsReply f.sub.address f.client.requests

-- What a method that has reset the flag relies on for the time that it waits.
abbrev pub LeavesOwned : (Frame → Frame) → Type 0
LeavesOwned handled = (g : Frame) → g.sub.inflight ≡ false → IsOwned (handled g)

send_subscribe-AwaitsReply :
    (env : Env) (r : SubscribeRequest) (a attempt generation : ℕ) (c : Client)
    → (send_subscribe env r (subscribe_cb a attempt generation) c).1 ≡ none
    → AwaitsReply a (send_subscribe env r (subscribe_cb a attempt generation) c).0.requests
unfolding AwaitsReply send_subscribe reply_result_of
send_subscribe-AwaitsReply env r a attempt generation c h =
    let id = (next_cmd_id c).0 in
    let cmd : Command = record { id = id; request = subscribe_req r } in
    let found =
      send_async-lookup env cmd (subscribe_cb a attempt generation) (next_cmd_id c).1 id in
    (id, ground (arith, h, found))

pub send_current-GoesOn :
    (env : Env) (token : String) (attempt invalidations : ℕ) (f : Frame)
    → GoesOn (send_current env token attempt invalidations f)
unfolding send_current subscribe_sent schedule_resubscribe GoesOn spawn
send_current-GoesOn env token attempt invalidations f =
    let c = f.client in
    let a = f.sub.address in
    let r = subscribe_request token f.sub in
    let sent = (send_subscribe env r (subscribe_cb a attempt c.conn_generation) c).1 in
    let retried = has_retry-append a c.tasks (resubscribe_task a) in
    elim (Option-cases sent) [
      | inl n ↦
          ground
            (arith, n, retried, send_subscribe-AwaitsReply env r a attempt c.conn_generation c n)
      | inr (e, n) ↦ ground (arith, n, retried)
    ]

pub resubscribe-GoesOn :
    (env : Env) (f : Frame) → (f.sub.inflight ≡ true) ⊎ GoesOn (resubscribe env f)
unfolding resubscribe continue_sync GoesOn spawn
resubscribe-GoesOn env f =
    let a = f.sub.address in
    ground (
      arith,
      has_retry-append a f.client.tasks (get_state_task a),
      has_retry-append a f.client.tasks (continue_task a),
      send_current-GoesOn env f.sub.token f.sub.subscribe_attempt f.sub.invalidations
          (set_inflight true f),
    )

inflight_stays : (env : Env) (f : Frame) → (f.sub.inflight ≡ true) → resubscribe env f ≡ f
unfolding resubscribe
inflight_stays env f h = ground (arith, h)

owned-GoesOn : (f : Frame) → IsOwned f → f.sub.inflight ≡ true → GoesOn f
unfolding IsOwned GoesOn
owned-GoesOn f v h = ground (arith, h, v, owner-retries f.sub.address f.client.tasks)

pub owned_resubscribe-GoesOn : (env : Env) (f : Frame) → IsOwned f → GoesOn (resubscribe env f)
owned_resubscribe-GoesOn env f v = elim (resubscribe-GoesOn env f) [
  | inl h ↦ subst GoesOn (sym (inflight_stays env f h)) (owned-GoesOn f v h)
  | inr g ↦ g
]

pub send_current-IsOwned :
    (env : Env) (token : String) (attempt invalidations : ℕ) (f : Frame)
    → IsOwned (send_current env token attempt invalidations f)
unfolding send_current subscribe_sent schedule_resubscribe IsOwned spawn
send_current-IsOwned env token attempt invalidations f =
    let c = f.client in
    let a = f.sub.address in
    let r = subscribe_request token f.sub in
    let sent = (send_subscribe env r (subscribe_cb a attempt c.conn_generation) c).1 in
    elim (Option-cases sent) [
      | inl n ↦ ground (arith, n, send_subscribe-AwaitsReply env r a attempt c.conn_generation c n)
      | inr (e, n) ↦ ground (arith, n)
    ]

pub resubscribe-IsOwned : (env : Env) (f : Frame) → IsOwned f → IsOwned (resubscribe env f)
unfolding resubscribe continue_sync IsOwned spawn
resubscribe-IsOwned env f v =
    let a = f.sub.address in
    ground (
      arith,
      v,
      has_owner-append a f.client.tasks (get_state_task a),
      has_owner-append a f.client.tasks (continue_task a),
      send_current-IsOwned env f.sub.token f.sub.subscribe_attempt f.sub.invalidations
          (set_inflight true f),
    )

pub schedule_resubscribe-GoesOn : (env : Env) (f : Frame) → GoesOn (schedule_resubscribe env f)
unfolding schedule_resubscribe GoesOn
schedule_resubscribe-GoesOn env f = ground arith

pub move_to_unsubscribed_locked-GoesOn :
    (code : ℕ) (reason : String) (e : GoError) (f : Frame)
    → GoesOn (move_to_unsubscribed_locked code reason e f)
unfolding move_to_unsubscribed_locked GoesOn
move_to_unsubscribed_locked-GoesOn code reason e f = ground arith

pub finish_subscribe_error-GoesOn :
    (env : Env) (e : GoError) (se : Option ServerError) (f : Frame)
    → GoesOn (finish_subscribe_error env e se f)
unfolding finish_subscribe_error
finish_subscribe_error-GoesOn env e none f = schedule_resubscribe-GoesOn env f
finish_subscribe_error-GoesOn env e (some se) f =
    let cleared = record f { sub = record (f.sub) { token = "" } } in
    ground (
      arith,
      schedule_resubscribe-GoesOn env f,
      schedule_resubscribe-GoesOn env cleared,
      move_to_unsubscribed_locked-GoesOn se.code se.message e f,
    )

pub lock_current_attempt-GoesOn :
    (env : Env) (attempt : ℕ) (f : Frame)
    → IsOwned f
    → (lock_current_attempt env attempt f).0 ≡ false
    → GoesOn (lock_current_attempt env attempt f).1
unfolding lock_current_attempt GoesOn
lock_current_attempt-GoesOn env attempt f v h = ground (arith, h, owned_resubscribe-GoesOn env f v)

pub lock_current_subscribe-GoesOn :
    (env : Env) (attempt generation : ℕ) (f : Frame)
    → IsOwned f
    → (lock_current_subscribe env attempt generation f).0 ≡ false
    → GoesOn (lock_current_subscribe env attempt generation f).1
unfolding lock_current_subscribe GoesOn
lock_current_subscribe-GoesOn env attempt generation f v h =
    ground (arith, h, owned_resubscribe-GoesOn env f v, lock_current_attempt-GoesOn env attempt f v)

pub idle-GoesOn : (f : Frame) → f.sub.state ≢ subscribing → GoesOn f
unfolding GoesOn
idle-GoesOn f h = inl h

pub disconnect-GoesOn :
    (f : Frame) → GoesOn (on_client (spawn (disconnect_task none subscribe_timed_out)) f)
unfolding GoesOn spawn
disconnect-GoesOn f = ground (
  arith,
  has_retry-append f.sub.address f.client.tasks (disconnect_task none subscribe_timed_out),
)

pub become_subscribed-state :
    (r : SubscribeResult) (pairs : List (WirePublication × Publication)) (f : Frame)
    → (become_subscribed r pairs f).sub.state ≡ subscribed
unfolding become_subscribed with_result schedule_sub_refresh resolve_sub_futures
become_subscribed-state r pairs f = ground arith

-- A subscribe that is in flight no more has no owner to wait for.
pub landed-IsOwned : (f : Frame) → f.sub.inflight ≡ false → IsOwned f
unfolding IsOwned
landed-IsOwned f h = inl h
