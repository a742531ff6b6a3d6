-- ===== src/Client/Replies.antt =====
-- Replies to commands: the check for what a callback reads, and the callbacks of the request table.
use centrifuge_go.Prelude.{
  map, ◌++◌, ℕ, String, Bool, true, false, List, [], ◌∷◌, Option, none, some, ◌||◌, ◌&&◌, not,
  if◌then◌else◌, is_some,
}
use centrifuge_go.Errors.{GoError, Result, ok, err, ServerError, server_error, client_disconnected}
use centrifuge_go.Codes.{disconnected_bad_protocol}
use centrifuge_go.Protocol.{
  WireInfo, ClientInfo, pub_from_proto, info_from_proto, Slice, WirePublication, SubscribeResult,
}
use centrifuge_go.Calls.{Context, finish_call}
use centrifuge_go.Requests.{pop_request, unsubscribe_done}
use centrifuge_go.State.{
  Client, Call, CallResult, Request, no_result, rpc_result, history_result, presence_result,
  presence_stats_result, rpc_req, history_req, presence_req, presence_stats_req, Frame, Env,
  Callback, ReplyResult, result_none, result_connect, result_subscribe, result_refresh,
  result_sub_refresh, result_rpc, result_history, result_presence, result_presence_stats,
  connect_cb, subscribe_cb, unsubscribe_cb, refresh_cb, sub_refresh_cb, call_cb,
}
use centrifuge_go.Subscription.{subscribe_replied}
use centrifuge_go.Subscription
use centrifuge_go.World.{World, on_sub, in_client}
use centrifuge_go.Client.Transitions.{move_to_disconnected_from}
use centrifuge_go.Client.Tokens.{
  RefreshReply, refresh_failed, refresh_refused, refreshed, refresh_replied,
}
use centrifuge_go.Client.Connect.{ConnectResult, connect_failed, connect_replied}
use centrifuge_go.Client.Dispatch.{on_sub_delta}

-- A result with publications, as it comes from the wire: a publication may be nil.
pub record WireResult {ℓ} (A : Type ℓ) : Type ℓ where
  pub fields : A
  pub pubs : List (Option WirePublication)

-- `protocol.ConnectResult`: a subscription of it may be nil.
pub record WireConnect : Type 0 where
  pub fields : ConnectResult
  pub wire_subs : List (String × Option (WireResult SubscribeResult))

-- `protocol.HistoryResult`.
pub record WireHistory : Type 0 where
  pub pubs : List (Option WirePublication)
  pub offset : ℕ
  pub epoch : String

-- `protocol.Reply`, by the results that a callback reads. The numbers of presence stats are those
-- of clients and of users.
pub record Reply : Type 0 where
  pub error : Option ServerError
  pub connect : Option WireConnect
  pub subscribe : Option (WireResult SubscribeResult)
  pub refresh : Option (Bool × ℕ)
  pub sub_refresh : Option (Bool × ℕ)
  pub rpc : Option Slice
  pub history : Option WireHistory
  pub presence : Option (List (String × Option WireInfo))
  pub presence_stats : Option (ℕ × ℕ)

unfoldable pub has_nil_publication : List (Option WirePublication) → Bool
has_nil_publication [] = false
has_nil_publication (none ∷ ps) = true
has_nil_publication (some p ∷ ps) = has_nil_publication ps

unfoldable pub malformed_result : Option (WireResult SubscribeResult) → Bool
malformed_result none = true
malformed_result (some r) = has_nil_publication r.pubs

unfoldable pub malformed_subs : List (String × Option (WireResult SubscribeResult)) → Bool
malformed_subs [] = false
malformed_subs ((channel, r) ∷ subs) = malformed_result r || malformed_subs subs

abbrev malformed_connect : Option WireConnect → Bool
malformed_connect none = true
malformed_connect (some r) = malformed_subs r.wire_subs

abbrev pub malformed_history : Option WireHistory → Bool
malformed_history none = true
malformed_history (some h) = has_nil_publication h.pubs

unfoldable pub malformed_reply : ReplyResult → Reply → Bool
malformed_reply result_connect r = malformed_connect r.connect
malformed_reply result_subscribe r = malformed_result r.subscribe
malformed_reply result_refresh r = not (is_some r.refresh)
malformed_reply result_sub_refresh r = not (is_some r.sub_refresh)
malformed_reply result_rpc r = not (is_some r.rpc)
malformed_reply result_history r = malformed_history r.history
malformed_reply result_presence r = not (is_some r.presence)
malformed_reply result_presence_stats r = not (is_some r.presence_stats)
malformed_reply result_none r = false

-- The publications behind the pointers; a nil one would be a panic.
unfoldable pub present : List (Option WirePublication) → List WirePublication
present [] = []
present (none ∷ ps) = present ps
present (some p ∷ ps) = p ∷ present ps

abbrev pub subscribe_result : WireResult SubscribeResult → SubscribeResult
subscribe_result r = record (r.fields) { publications = present r.pubs }

unfoldable pub present_subs :
    List (String × Option (WireResult SubscribeResult)) → List (String × SubscribeResult)
present_subs [] = []
present_subs ((channel, none) ∷ subs) = present_subs subs
present_subs ((channel, some r) ∷ subs) = (channel, subscribe_result r) ∷ present_subs subs

abbrev pub connect_result : WireConnect → ConnectResult
connect_result r = record (r.fields) { subs = present_subs r.wire_subs }

-- What happens during the waits of a callback: in a handler, for the client and for a frame, and
-- while a transport closes.
pub record Waits : Type 0 where
  pub meanwhile : World → World
  pub in_frame : Frame → Frame
  pub closing : World → World

-- What a callback gets: an error of the client, or a reply. A result that is missing would be a
-- panic; `handle` has dropped such a reply before.
unfoldable pub answer {ℓ} : {A : Type ℓ} → Option A → Option ServerError → Option (Result A)
answer r (some e) = some (err (server_error e))
answer none none = none
answer (some a) none = some (ok a)

unfoldable pub connect_answer :
    Env → Context → Waits → ℕ → ℕ → String → Option (Result WireConnect) → World → World
connect_answer env ctx waits t attempt token none w = w
connect_answer env ctx waits t attempt token (some (err e)) w =
    connect_failed env ctx waits.meanwhile waits.closing t attempt token e w
connect_answer env ctx waits t attempt token (some (ok r)) w =
    connect_replied env ctx waits.meanwhile (connect_result r) t attempt w

unfoldable pub subscribe_answer :
    Env → Context → Waits → ℕ → ℕ → ℕ → Option (Result (WireResult SubscribeResult)) → World → World
subscribe_answer env ctx waits a attempt generation none w = w
subscribe_answer env ctx waits a attempt generation (some (err e)) w =
    on_sub_delta env ctx waits.meanwhile a
      (subscribe_replied env waits.in_frame (err e) attempt generation) w
subscribe_answer env ctx waits a attempt generation (some (ok r)) w =
    on_sub_delta env ctx waits.meanwhile a
      (subscribe_replied env waits.in_frame (ok (subscribe_result r)) attempt generation) w

unfoldable pub refresh_answer : Option (Bool × ℕ) → Option ServerError → Option RefreshReply
refresh_answer r (some e) = some (refresh_refused e)
refresh_answer none none = none
refresh_answer (some (expires, ttl)) none = some (refreshed expires ttl)

abbrev pub error_of : Option ServerError → Option GoError
error_of none = none
error_of (some e) = some (server_error e)

-- The results that the closures of `sendRPC`, `sendPublish`, `sendHistory`, `sendPresence` and
-- `sendPresenceStats` make of a reply without an error; `none` would be a panic.
unfoldable pub rpc_result_of : Option Slice → Option CallResult
rpc_result_of none = none
rpc_result_of (some b) = some (rpc_result b)

unfoldable pub history_result_of : Option WireHistory → Option CallResult
history_result_of none = none
history_result_of (some h) =
    some (history_result (map pub_from_proto (present h.pubs)) h.offset h.epoch)

abbrev pub client_info : String × Option WireInfo → String × ClientInfo
client_info (uid, info) = (uid, info_from_proto info)

unfoldable pub presence_result_of : Option (List (String × Option WireInfo)) → Option CallResult
presence_result_of none = none
presence_result_of (some clients) = some (presence_result (map client_info clients))

unfoldable pub presence_stats_result_of : Option (ℕ × ℕ) → Option CallResult
presence_stats_result_of none = none
presence_stats_result_of (some (clients, users)) = some (presence_stats_result clients users)

unfoldable pub call_result : Request → Reply → Option CallResult
unfolding rpc_result_of history_result_of presence_result_of presence_stats_result_of
call_result (rpc_req method b) r = rpc_result_of r.rpc
call_result (history_req channel o) r = history_result_of r.history
call_result (presence_req channel) r = presence_result_of r.presence
call_result (presence_stats_req channel) r = presence_stats_result_of r.presence_stats
call_result _ r = some no_result

-- The closure that a call passes to `sendAsync`, for a reply.
unfoldable pub finish_replied : Call → Reply → Client → Client
finish_replied call r c = elim (answer (call_result call.request r) r.error) [
  | none ↦ c
  | some x ↦ record c { results = c.results ++ ((call, x) ∷ []) }
]

-- `req.cb(reply, nil)`.
unfoldable pub run_callback : Env → Context → Waits → Callback → Reply → World → World
unfolding connect_answer subscribe_answer refresh_answer
run_callback env ctx waits (connect_cb t attempt token) r w =
    connect_answer env ctx waits t attempt token (answer r.connect r.error) w
run_callback env ctx waits (subscribe_cb a attempt generation) r w =
    subscribe_answer env ctx waits a attempt generation (answer r.subscribe r.error) w
run_callback env ctx waits unsubscribe_cb r w = in_client (unsubscribe_done (error_of r.error)) w
run_callback env ctx waits (refresh_cb generation) r w = elim (refresh_answer r.refresh r.error) [
  | none ↦ w
  | some x ↦ refresh_replied env ctx waits.meanwhile generation x w
]
run_callback env ctx waits (sub_refresh_cb a session invalidations) r w =
    elim (answer r.sub_refresh r.error) [
      | none ↦ w
      | some x ↦
          on_sub a (Subscription.refresh_replied env waits.in_frame x session invalidations) w
    ]
run_callback env ctx waits (call_cb call) r w = in_client (finish_replied call r) w

-- `req.cb(nil, err)`.
unfoldable pub fail_callback : Env → Context → Waits → Callback → GoError → World → World
unfolding connect_answer subscribe_answer
fail_callback env ctx waits (connect_cb t attempt token) e w =
    connect_answer env ctx waits t attempt token (some (err e)) w
fail_callback env ctx waits (subscribe_cb a attempt generation) e w =
    subscribe_answer env ctx waits a attempt generation (some (err e)) w
fail_callback env ctx waits unsubscribe_cb e w = in_client (unsubscribe_done (some e)) w
fail_callback env ctx waits (refresh_cb generation) e w =
    refresh_replied env ctx waits.meanwhile generation (refresh_failed e) w
fail_callback env ctx waits (sub_refresh_cb a session invalidations) e w =
    on_sub a (Subscription.refresh_replied env waits.in_frame (err e) session invalidations) w
fail_callback env ctx waits (call_cb call) e w = in_client (finish_call call (some e)) w

-- `handle`, for a reply with an id. A reply that lacks what its callback reads ends the connection.
unfoldable pub handle_reply : Env → Context → Waits → ℕ → ℕ → Reply → World → World
handle_reply env ctx waits t id r w =
    let (found, c) = pop_request id w.client in
    let w1 = record w { client = c } in
    elim found [
      | none ↦ w1
      | some p ↦
          if not (is_some r.error) && malformed_reply p.result r
          then fail_callback env ctx waits p.cb client_disconnected (
              move_to_disconnected_from env ctx (some t) disconnected_bad_protocol "malformed reply"
                w1)
          else run_callback env ctx waits p.cb r w1
    ]

-- The timer of a request, once its grace has passed: the callback fails if no reply came.
unfoldable pub request_timeout : Env → Context → Waits → GoError → ℕ → World → World
request_timeout env ctx waits e id w =
    let (found, c) = pop_request id w.client in
    let w1 = record w { client = c } in
    elim found [ none ↦ w1 | some p ↦ fail_callback env ctx waits p.cb e w1 ]
