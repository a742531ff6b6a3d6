-- ===== src/Client/Reader.antt =====
-- The reader of a transport and the wait for pings: `reader`, `readOnce`, `handle`, `waitServerPing`.
use centrifuge_go.Prelude.{ℕ, ◌-◌, true, List, [], ◌∷◌, Option, some, if◌then◌else◌, ltb}
use centrifuge_go.Codes.{connecting_no_ping}
use centrifuge_go.Calls.{Context}
use centrifuge_go.Effects.{spawn}
use centrifuge_go.State.{Client, Env, Disconnect, disconnect_task}
use centrifuge_go.Transport.{ReadOutcome, got, ended}
use centrifuge_go.World.{World, in_client}
use centrifuge_go.Client.Transitions.{or_transport_closed}
use centrifuge_go.Client.Dispatch.{Push, handle_unsolicited}
use centrifuge_go.Client.Replies.{Reply, Waits, handle_reply}

-- A frame of the server: `protocol.Reply` with its id and push.
pub record ServerReply : Type 0 where
  pub id : ℕ
  pub body : Reply
  pub push : Option Push

-- `handle`.
unfoldable pub handle : Env → Context → Waits → ℕ → ServerReply → World → World
handle env ctx waits t r w =
    if ltb 0 r.id
    then handle_reply env ctx waits t r.id r.body w
    else handle_unsolicited env ctx waits.meanwhile t r.push w

-- `go c.handleTransportDisconnect(t, disconnect)`; without a disconnect that is "transport closed".
unfoldable pub report_disconnect : ℕ → Option Disconnect → World → World
report_disconnect t d w = in_client (spawn (disconnect_task (some t) (or_transport_closed d))) w

-- `reader`, with `readOnce`, over what `Read` returns. `scene` says for each frame which contexts are
-- done by then, and what happens while it is handled.
unfoldable pub reader :
    Env → (ServerReply → Context × Waits) → ℕ → List (ReadOutcome ServerReply) → World → World
reader env scene t [] w = w
reader env scene t (got r ∷ rest) w =
    reader env scene t rest (handle env (scene r).0 (scene r).1 t r w)
reader env scene t (ended d ∷ rest) w = report_disconnect t d w

-- What `waitServerPing` waits for: a ping or push came, the timeout passed, or the reader stopped.
pub data PingWait : Type 0 where
  ping_came ping_missed reader_stopped : PingWait

abbrev no_ping : Disconnect
no_ping = record { code = connecting_no_ping; reason = "no ping"; reconnect = true }

-- `waitServerPing`.
unfoldable pub wait_server_ping : ℕ → List PingWait → Client → Client
wait_server_ping t [] c = c
wait_server_ping t (ping_came ∷ waits) c =
    wait_server_ping t waits (record c { delay_ping = c.delay_ping - 1 })
wait_server_ping t (ping_missed ∷ waits) c =
    wait_server_ping t waits (spawn (disconnect_task (some t) no_ping) c)
wait_server_ping t (reader_stopped ∷ waits) c = c
