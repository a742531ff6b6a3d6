-- ===== src/Requests.antt =====
-- The request table of client.go: command ids, pending requests, and writing a command.
pub mod Table
use centrifuge_go.Prelude.{
  ℕ, zero, suc, ◌+◌, String, Bool, true, false, List, [], ◌∷◌, ◌++◌, Option, none, some, ◌==◌,
  nat_key, if◌then◌else◌, u32, lookup, insert, delete, is_some,
}
use centrifuge_go.Errors.{GoError, client_disconnected}
use centrifuge_go.Codes.{connecting_transport_closed, connecting_unsubscribe_error}
use centrifuge_go.Protocol.{StreamPosition}
use centrifuge_go.Effects.{spawn}
use centrifuge_go.State.{
  Client, Env, Command, Request, Callback, Pending, Disconnect, ReplyResult, SubscribeRequest,
  connect_req, subscribe_req, unsubscribe_req, refresh_req, sub_refresh_req, rpc_req, history_req,
  presence_req, presence_stats_req, result_none, result_connect, result_subscribe, result_refresh,
  result_sub_refresh, result_rpc, result_history, result_presence, result_presence_stats,
  unsubscribe_cb, subscribe_cb, disconnect_task, request_timer,
}

-- The loop of `nextCmdID` from the counter `n`; the fuel bounds its rounds.
unfoldable pub next_id : ℕ → ℕ → Option ℕ
next_id zero n = none
next_id (suc fuel) n =
    let id = u32 (n + 1) in let rest = next_id fuel id in if id == 0 then rest else some id

abbrev id_or_zero : Option ℕ → ℕ
id_or_zero none = 0
id_or_zero (some id) = id

unfoldable pub next_cmd_id : Client → ℕ × Client
unfolding next_id
next_cmd_id c = let id = id_or_zero (next_id 2 c.cmd_id) in (id, record c { cmd_id = id })

unfoldable pub reply_result_of : Request → ReplyResult
reply_result_of (connect_req token subs) = result_connect
reply_result_of (subscribe_req r) = result_subscribe
reply_result_of (refresh_req token) = result_refresh
reply_result_of (sub_refresh_req channel token) = result_sub_refresh
reply_result_of (rpc_req method b) = result_rpc
reply_result_of (history_req channel o) = result_history
reply_result_of (presence_req channel) = result_presence
reply_result_of (presence_stats_req channel) = result_presence_stats
reply_result_of _ = result_none

unfoldable pub add_request : ℕ → ReplyResult → Callback → Client → Client
add_request id result cb c = record c {
  requests = insert id (record { cb = cb; result = result }) c.requests;
}

unfoldable pub pop_request : ℕ → Client → Option Pending × Client
pop_request id c = (lookup id c.requests, record c { requests = delete id c.requests })

write_error : Disconnect
write_error = record {
  code = connecting_transport_closed;
  reason = "write error";
  reconnect = true;
}

unfoldable pub send_on : Env → ℕ → Command → Client → Client × Option GoError
unfolding write_error spawn
send_on env t cmd c =
    if env.write_ok t cmd
    then (record c { written = c.written ++ ((t, cmd) ∷ []) }, none)
    else (spawn (disconnect_task (some t) write_error) c, some client_disconnected)

unfoldable pub send : Env → Command → Client → Client × Option GoError
send env cmd c = elim c.transport [
  | none ↦ (c, some client_disconnected)
  | some t ↦ send_on env t cmd c
]

-- What `sendAsyncOn` does once the command was written or refused.
unfoldable pub async_sent : ℕ → Client × Option GoError → Client × Option GoError
unfolding spawn pop_request
async_sent id (c, none) = (spawn (request_timer id) c, none)
async_sent id (c, some e) =
    let (found, c') = pop_request id c in (c', if is_some found then some e else none)

unfoldable pub send_async_on :
    Env → Option ℕ → Command → Callback → Client → Client × Option GoError
unfolding async_sent reply_result_of
send_async_on env none cmd cb c =
    async_sent cmd.id (send env cmd (add_request cmd.id (reply_result_of cmd.request) cb c))
send_async_on env (some t) cmd cb c =
    async_sent cmd.id (send_on env t cmd (add_request cmd.id (reply_result_of cmd.request) cb c))

unfoldable pub send_async : Env → Command → Callback → Client → Client × Option GoError
unfolding send_async_on
send_async env cmd cb c = send_async_on env none cmd cb c

unsubscribe_failed : Disconnect
unsubscribe_failed = record {
  code = connecting_unsubscribe_error;
  reason = "unsubscribe error";
  reconnect = true;
}

-- The callback that `sendUnsubscribeLocked` passes to `sendUnsubscribe`.
unfoldable pub unsubscribe_done : Option GoError → Client → Client
unfolding unsubscribe_failed spawn
unsubscribe_done none c = c
unsubscribe_done (some e) c = spawn (disconnect_task none unsubscribe_failed) c

unfoldable pub send_unsubscribe : Env → String → Client → Client
send_unsubscribe env channel c =
    let (id, c1) = next_cmd_id c in
    let (c2, e) =
      send_async env (record { id = id; request = unsubscribe_req channel }) unsubscribe_cb c1 in
    unsubscribe_done e c2

unfoldable pub send_subscribe : Env → SubscribeRequest → Callback → Client → Client × Option GoError
send_subscribe env params cb c =
    let (id, c1) = next_cmd_id c in
    send_async env (record { id = id; request = subscribe_req params }) cb c1

-- `sendSubRefresh` and the end of `sendRefresh`: the result of `sendAsync` is not used.
unfoldable pub send_ignoring_error : Env → Request → Callback → Client → Client
send_ignoring_error env request cb c =
    let (id, c1) = next_cmd_id c in (send_async env (record { id = id; request = request }) cb c1).0
