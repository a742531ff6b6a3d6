-- ===== src/State/Records.antt =====
-- The two objects, with the fields that the source declares. Mutexes and channels are left out: a
-- function of the model is what the source does while it holds the lock.
use centrifuge_go.Prelude.{ℕ, String, Bool, false, List, Option, none, some}
use centrifuge_go.Errors.{Result}
use centrifuge_go.Protocol.{Bytes, Slice}
use centrifuge_go.Backoff.{BackoffReconnect}
use centrifuge_go.State.Kinds.{State, SubState, DeltaType, ProtocolType}
use centrifuge_go.State.Output.{Event, Command, Pending, Task, Call, CallResult}

-- A `*time.Timer` made by `time.AfterFunc`: `key` is the number that its function captures (the
-- session or generation of a refresh), `armed` says that it neither fired nor was stopped.
pub record Timer : Type 0 where
  pub delay : ℕ
  pub key : ℕ
  pub armed : Bool

-- `if t != nil { t.Stop() }`.
abbrev pub stop : Option Timer → Option Timer
stop none = none
stop (some t) = some (record t { armed = false })

abbrev pub is_armed : Option Timer → Bool
is_armed none = false
is_armed (some t) = t.armed

-- Which handlers of a subscription are set.
pub record SubHandlers : Type 0 where
  pub on_subscribing : Bool
  pub on_subscribed : Bool
  pub on_unsubscribed : Bool
  pub on_publication : Bool
  pub on_join : Bool
  pub on_leave : Bool
  pub on_error : Bool

pub record Subscription : Type 0 where
  pub address : ℕ  -- the pointer
  pub future_id : ℕ  -- uint64
  pub channel : String
  pub state : SubState
  pub handlers : SubHandlers
  pub offset : ℕ  -- uint64
  pub epoch : String
  pub recover : Bool
  pub sub_futures : List (ℕ × Call)
  pub data_bytes : Slice
  pub positioned : Bool
  pub recoverable : Bool
  pub join_leave : Bool
  pub token : String
  pub has_get_token : Bool
  pub has_get_state : Bool
  pub resubscribe_attempts : ℕ
  pub resubscribe_strategy : BackoffReconnect
  pub resubscribe_timer : Option Timer
  pub refresh_timer : Option Timer
  pub delta_type : DeltaType
  pub delta_negotiated : Bool
  pub prev_data : Slice
  pub tags_filter : Option ℕ
  pub push_id : ℕ  -- int64, as a bit pattern
  pub inflight : Bool
  pub subscribe_attempt : ℕ  -- uint64
  pub invalidations : ℕ  -- uint64
  pub subscribed_session : ℕ  -- uint64

-- Which handlers of the client are set.
pub record ClientHandlers : Type 0 where
  pub on_connected : Bool
  pub on_disconnected : Bool
  pub on_connecting : Bool
  pub on_message : Bool
  pub on_error : Bool
  pub on_server_subscribe : Bool
  pub on_server_subscribing : Bool
  pub on_server_unsubscribed : Bool
  pub on_server_publication : Bool
  pub on_server_join : Bool
  pub on_server_leave : Bool

-- `serverSub`.
pub record ServerSub : Type 0 where
  pub offset : ℕ  -- uint64
  pub epoch : String
  pub recoverable : Bool

-- The last six fields are not of the source: the event queue as the list of what was pushed,
-- whether it was closed, the goroutines started, the commands written with their
-- transports, the transports closed, and the results handed to waiting calls.
pub record Client : Type 0 where
  pub future_id : ℕ  -- uint64
  pub cmd_id : ℕ  -- uint32
  pub endpoints : ℕ
  pub round : ℕ
  pub connect_attempt : ℕ  -- uint64
  pub protocol_type : ProtocolType
  pub has_get_token : Bool
  pub token : String
  pub transport : Option ℕ
  pub state : State
  pub connected : Bool
  pub subs : List (String × ℕ)
  pub server_subs : List (String × ServerSub)
  pub subs_by_id : List (ℕ × ℕ)
  pub conn_generation : ℕ  -- int64, as a bit pattern
  pub requests : List (ℕ × Pending)
  pub reconnect_attempts : ℕ
  pub reconnect_strategy : BackoffReconnect
  pub handlers : ClientHandlers
  pub send_pong : Bool
  pub close_ch_open : Bool
  pub delay_ping : ℕ  -- what is in the channel, which holds 32
  pub connect_futures : List (ℕ × Call)
  pub cb_queue_set : Bool
  pub reconnect_timer : Option Timer
  pub refresh_timer : Option Timer
  pub refresh_required : Bool
  pub events : List Event
  pub queue_closed : Bool
  pub tasks : List Task
  pub written : List (ℕ × Command)
  pub closed_transports : List ℕ
  pub results : List (Call × Result CallResult)

-- A subscription with its client: what a method of `Subscription` can reach.
pub record Frame : Type 0 where
  pub client : Client
  pub sub : Subscription

-- What is not under the repository, and what the application or the network decides.
pub record Env : Type 0 where
  -- Whether `Write` on a transport succeeds.
  pub write_ok : ℕ → Command → Bool
  -- `ForAttempt` of jpillora/backoff.
  pub for_attempt : BackoffReconnect → ℕ → ℕ
  -- `json.Unmarshal` of a JSON string, as bytes.
  pub unmarshal_string : Slice → Option Bytes
  -- `fdelta.Apply`: base, delta.
  pub apply_delta : Slice → Slice → Option Slice
