-- ===== src/Client/Teardown.antt =====
-- The parts of a teardown: the state with its mirror, the transport, the connected session, and the
-- reconnect timer; and the registry of subscriptions.
use centrifuge_go.Prelude.{
  ℕ, ◌+◌, String, Bool, true, false, List, [], ◌∷◌, ◌++◌, Option, none, some, ◌==◌, nat_key,
  string_key, ◌&&◌, not, if◌then◌else◌, u64, lookup, insert, delete,
}
use centrifuge_go.Errors.{GoError, client_disconnected, duplicate_subscription, other}
use centrifuge_go.Backoff.{time_before_next_attempt}
use centrifuge_go.State.{
  Client, Env, State, Pending, Task, is_connected, is_connecting, callback_task, ServerSub,
  SubState, is_unsubscribed,
}

unfoldable pub set_state_locked : State → Client → Client
set_state_locked s c = record c { state = s; connected = is_connected s }

-- `if c.transport != nil { c.transport.Close(); c.setTransportLocked(nil) }`.
unfoldable pub drop_transport : Client → Client
drop_transport c = elim c.transport [
  | none ↦ c
  | some t ↦ record c { transport = none; closed_transports = c.closed_transports ++ (t ∷ []) }
]

-- Each pending request fails in a goroutine of its own.
unfoldable pub failed_requests : List (ℕ × Pending) → List Task
failed_requests [] = []
failed_requests ((id, r) ∷ requests) =
    callback_task r.cb client_disconnected ∷ failed_requests requests

unfoldable pub clear_connected_state : Client → Client
clear_connected_state c = record c {
  conn_generation = u64 (c.conn_generation + 1);
  subs_by_id = [];
  reconnect_timer = none;
  refresh_timer = none;
  close_ch_open = false;
  requests = [];
  tasks = c.tasks ++ failed_requests c.requests;
}

-- A timer that was armed before is replaced. `reconnect_attempts` is an int.
unfoldable pub schedule_reconnect_locked : Env → Client → Client
schedule_reconnect_locked env c =
    let attempts = c.reconnect_attempts + 1 in
    let delay = time_before_next_attempt env.for_attempt c.reconnect_strategy attempts in
    record c {
      reconnect_attempts = attempts;
      reconnect_timer = some (record { delay = delay; key = 0; armed = true });
    }

abbrev pub is_current_attempt : ℕ → Client → Bool
is_current_attempt attempt c = is_connecting c.state && (c.connect_attempt == attempt)

abbrev pub is_connected_attempt : ℕ → Client → Bool
is_connected_attempt attempt c = is_connected c.state && (c.connect_attempt == attempt)

-- `c.transport == t`, for a transport that is not nil.
abbrev pub has_transport : ℕ → Option ℕ → Bool
has_transport t none = false
has_transport t (some u) = u == t

unfoldable pub channels : List (String × ServerSub) → List String
channels [] = []
channels ((channel, s) ∷ subs) = channel ∷ channels subs

abbrev registered_at : ℕ → Option ℕ → Bool
registered_at a none = false
registered_at a (some b) = b == a

-- `isRegistered`.
unfoldable pub is_registered : String → ℕ → Client → Bool
is_registered channel a c = registered_at a (lookup channel c.subs)

-- The part of `NewSubscription` after the object was made at address `a`; `conflict` says that the
-- configuration has both a delta and a tags filter.
unfoldable pub new_subscription : String → Bool → ℕ → Client → Client × Option GoError
new_subscription channel conflict a c = elim (lookup channel c.subs) [
  | some b ↦ (c, some duplicate_subscription)
  | none ↦
      if conflict
      then (c, some (other "cannot use delta and tags filter together"))
      else (record c { subs = insert channel a c.subs }, none)
]

-- `RemoveSubscription`, of the subscription at `a` in the given state.
unfoldable pub remove_subscription : String → ℕ → SubState → Client → Client × Option GoError
remove_subscription channel a state c =
    if not (is_unsubscribed state)
    then (c, some (other "subscription must be unsubscribed to be removed"))
    else if is_registered channel a c
    then (record c { subs = delete channel c.subs }, none)
    else (c, none)

-- `SetToken`.
unfoldable pub set_token : String → Client → Client
set_token token c = record c {
  token = token;
  refresh_required = if c.has_get_token then c.refresh_required else false;
}
