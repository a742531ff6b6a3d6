-- ===== src/State/Output.antt =====
-- What an operation leaves behind: events queued for the application, commands written, callbacks
-- of requests, and goroutines started. Closures of the source are constructors here, with the
-- variables that they capture; a pointer to a subscription or to a transport is a number.
use centrifuge_go.Prelude.{ℕ, String, Bool, List, Option}
use centrifuge_go.Errors.{GoError}
use centrifuge_go.Protocol.{Slice, StreamPosition, WirePublication, ClientInfo, Publication}

-- `disconnect` of client.go.
pub record Disconnect : Type 0 where
  pub code : ℕ
  pub reason : String
  pub reconnect : Bool

-- `SubscribedEvent`, and the same fields of `ServerSubscribedEvent`.
pub record SubscribedEvent : Type 0 where
  pub data_bytes : Slice
  pub recovered : Bool
  pub was_recovering : Bool
  pub recoverable : Bool
  pub positioned : Bool
  pub position : Option StreamPosition

-- A callback pushed to the event queue, by the handler that it calls. The first text is a channel.
pub data Event : Type 0 where
  on_subscribing on_unsubscribed : String → ℕ → String → Event
  on_subscribed : String → SubscribedEvent → Event
  on_publication : String → Publication → Event
  on_join on_leave : String → ClientInfo → Event
  on_sub_error : String → GoError → Event
  deliver_recovered : ℕ → ℕ → List (WirePublication × Publication) → Event
  on_connecting on_disconnected : ℕ → String → Event
  on_connected : String → String → Slice → Event
  on_error : GoError → Event
  on_message : Slice → Event
  on_server_subscribing on_server_unsubscribed : List String → Event
  on_server_subscribed : String → SubscribedEvent → Event
  on_server_publication : String → Publication → Event
  on_server_join on_server_leave : String → ClientInfo → Event
  deliver_server_recovered : String → ℕ → List WirePublication → Event

-- The request that `sendSubscribe` builds. `tf` is the tags filter, by its address.
pub record SubscribeRequest : Type 0 where
  pub channel : String
  pub recover : Bool
  pub offset : ℕ
  pub epoch : String
  pub token : String
  pub data_bytes : Slice
  pub positioned : Bool
  pub recoverable : Bool
  pub join_leave : Bool
  pub flag : ℕ
  pub delta : Bool
  pub tf : Option ℕ

-- `HistoryOptions`.
pub record HistoryOptions : Type 0 where
  pub limit : ℕ
  pub since : Option StreamPosition
  pub reverse : Bool

-- The request of a `protocol.Command`: the client sets one of them, or none in a pong.
pub data Request : Type 0 where
  connect_req : String → List (String × StreamPosition) → Request
  subscribe_req : SubscribeRequest → Request
  unsubscribe_req : String → Request
  refresh_req : String → Request
  sub_refresh_req : String → String → Request
  rpc_req : String → Slice → Request
  publish_req : String → Slice → Request
  history_req : String → HistoryOptions → Request
  presence_req presence_stats_req : String → Request
  send_req : Slice → Request
  pong_req : Request

pub record Command : Type 0 where
  pub id : ℕ  -- uint32
  pub request : Request

-- `replyResult`.
pub data ReplyResult : Type 0 where
  result_none result_connect result_subscribe result_refresh result_sub_refresh : ReplyResult
  result_rpc result_history result_presence result_presence_stats : ReplyResult

-- What a call returns besides its error: `RPCResult`, `HistoryResult`, `PresenceResult`,
-- `PresenceStatsResult`, or nothing.
pub data CallResult : Type 0 where
  no_result : CallResult
  rpc_result : Slice → CallResult
  history_result : List Publication → ℕ → String → CallResult
  presence_result : List (String × ClientInfo) → CallResult
  presence_stats_result : ℕ → ℕ → CallResult

-- A call of the application that waits for its result: `ticket` tells the calls apart.
pub record Call : Type 0 where
  pub ticket : ℕ
  pub request : Request

-- The callback of a pending request.
pub data Callback : Type 0 where
  connect_cb : ℕ → ℕ → String → Callback  -- transport, attempt, token
  subscribe_cb : ℕ → ℕ → ℕ → Callback  -- subscription, attempt, generation
  unsubscribe_cb : Callback
  refresh_cb : ℕ → Callback  -- generation
  sub_refresh_cb : ℕ → ℕ → ℕ → Callback  -- subscription, session, invalidations
  call_cb : Call → Callback

-- `request`; `cb` is never nil.
pub record Pending : Type 0 where
  pub cb : Callback
  pub result : ReplyResult

-- A goroutine started with `go`, not yet run.
pub data Task : Type 0 where
  disconnect_task : Option ℕ → Disconnect → Task
  get_state_task continue_task resubscribe_task : ℕ → Task
  sub_future_task : Call → Option GoError → Task
  sub_future_timer : ℕ → ℕ → Task  -- subscription, future id
  connect_future_timer : ℕ → Task
  callback_task : Callback → GoError → Task
  request_timer : ℕ → Task
  ping_timer : ℕ → ℕ → Task  -- transport, interval
  reader_task : ℕ → Task
