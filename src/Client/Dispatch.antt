-- ===== src/Client/Dispatch.antt =====
-- `handle` and `handlePush`: what the reader does with a reply or a push, and the check of replies.
use centrifuge_go.Prelude.{
  ℕ, ◌+◌, String, Bool, Option, none, some, nat_key, string_key, ◌&&◌, ◌||◌, if◌then◌else◌, ltb,
  leb, lookup, int64_pos,
}
use centrifuge_go.Errors.{GoError, delta_error}
use centrifuge_go.Codes.{disconnected_bad_protocol}
use centrifuge_go.Protocol.{Slice, WireInfo, WirePublication}
use centrifuge_go.Effects.{notify_sync}
use centrifuge_go.Calls.{Context}
use centrifuge_go.Requests.{send_on}
use centrifuge_go.State.{Client, Frame, Env, Command, is_connected, pong_req, on_message}
use centrifuge_go.Subscription.{handle_publication, handle_join, handle_leave, handle_unsubscribe}
use centrifuge_go.World.{World, on_sub, in_client, put, frame}
use centrifuge_go.Client.Teardown.{has_transport}
use centrifuge_go.Client.Transitions.{
  handle_error, move_to_disconnected, handle_transport_disconnect,
}
use centrifuge_go.Client.ServerSubs.{
  SubscribePush, handle_server_publication, handle_server_join, handle_server_leave,
  handle_server_sub, handle_server_unsub,
}

-- The part of a `protocol.Push` that is set.
pub data PushBody : Type 0 where
  message_push : Slice → PushBody
  unsubscribe_push : ℕ → String → PushBody
  publication_push : WirePublication → PushBody
  join_push leave_push : Option WireInfo → PushBody
  subscribe_push : SubscribePush → PushBody
  disconnect_push : ℕ → String → PushBody
  other_push : PushBody

pub record Push : Type 0 where
  pub id : ℕ  -- int64, as a bit pattern
  pub channel : String
  pub body : PushBody

-- `deltaFailed`: the error is reported, and the client disconnects for good.
unfoldable pub delta_failed : Env → Context → (World → World) → String → ℕ → GoError → World → World
delta_failed env ctx handled channel offset e w =
    move_to_disconnected env ctx disconnected_bad_protocol "delta error"
      (handled (in_client (handle_error (delta_error channel offset e)) w))

-- A method of the subscription at an address that may find a broken delta.
unfoldable pub on_sub_delta :
    Env → Context → (World → World) → ℕ → (Frame → Frame × Option (ℕ × GoError)) → World → World
on_sub_delta env ctx handled a op w =
    let (f, failure) = op (frame w a) in
    elim failure [
      | none ↦ put w a f
      | some (offset, e) ↦ delta_failed env ctx handled (w.heap a).channel offset e (put w a f)
    ]

-- Codes after which the client reconnects.
unfoldable pub reconnects : ℕ → Bool
reconnects code = ltb code 3500 || (leb 5000 code || (leb 4000 code && ltb code 4500))

-- The subscription that a push is for: by its numeric id if it has one, else by its channel.
unfoldable pub push_target : Push → Client → Option ℕ
push_target p c = if int64_pos p.id then lookup p.id c.subs_by_id else lookup p.channel c.subs

-- A push for no client-side subscription. One with a numeric id is dropped.
unfoldable pub push_to_server_sub : String → Bool → PushBody → Client → Client
push_to_server_sub channel compacted (unsubscribe_push code reason) c =
    handle_server_unsub channel c
push_to_server_sub channel compacted (publication_push p) c =
    if compacted then c else handle_server_publication channel p c
push_to_server_sub channel compacted (join_push info) c =
    if compacted then c else handle_server_join channel info c
push_to_server_sub channel compacted (leave_push info) c =
    if compacted then c else handle_server_leave channel info c
push_to_server_sub channel compacted (subscribe_push p) c = handle_server_sub channel p c
push_to_server_sub channel compacted _ c = c

-- A push for the subscription at an address.
unfoldable pub push_to_sub : Env → Context → (World → World) → ℕ → PushBody → World → World
push_to_sub env ctx handled a (unsubscribe_push code reason) w =
    on_sub a (handle_unsubscribe env code reason) w
push_to_sub env ctx handled a (publication_push p) w =
    on_sub_delta env ctx handled a (handle_publication env p) w
push_to_sub env ctx handled a (join_push info) w = on_sub a (handle_join info) w
push_to_sub env ctx handled a (leave_push info) w = on_sub a (handle_leave info) w
push_to_sub env ctx handled a _ w = w

unfoldable pub push_to : Env → Context → (World → World) → Option ℕ → Push → World → World
unfolding push_to_server_sub push_to_sub
push_to env ctx handled none p w =
    in_client (push_to_server_sub p.channel (int64_pos p.id) p.body) w
push_to env ctx handled (some a) p w = push_to_sub env ctx handled a p.body w

-- The pushes that concern the whole client come first; `handled` is a wait for a handler.
unfoldable pub push_body : Env → Context → (World → World) → ℕ → Push → PushBody → World → World
unfolding push_to
push_body env ctx handled t p (message_push b) w =
    in_client (notify_sync w.client.handlers.on_message (on_message b)) w
push_body env ctx handled t p (disconnect_push code reason) w =
    handle_transport_disconnect env ctx handled (some t)
      (some (record { code = code; reason = reason; reconnect = reconnects code })) w
push_body env ctx handled t p _ w = push_to env ctx handled (push_target p w.client) p w

unfoldable pub handle_push : Env → Context → (World → World) → ℕ → Push → World → World
unfolding push_body
handle_push env ctx handled t p w = push_body env ctx handled t p p.body w

-- `select { case c.delayPing <- struct{}{}: default: }`.
unfoldable pub send_delay_ping : Client → Client
send_delay_ping c = if ltb c.delay_ping 32 then record c { delay_ping = c.delay_ping + 1 } else c

-- A frame of the server that is no reply to a command: a push, or a ping if there is none. Pushes
-- are for a connected client and its current transport; a ping of any transport postpones the
-- timeout for pings, and is answered on its own transport if that is the current one.
unfoldable pub handle_unsolicited :
    Env → Context → (World → World) → ℕ → Option Push → World → World
handle_unsolicited env ctx handled t none w =
    let c = send_delay_ping w.client in
    let pong : Command = record { id = 0; request = pong_req } in
    if c.send_pong && has_transport t c.transport
    then record w { client = (send_on env t pong c).0 }
    else record w { client = c }
handle_unsolicited env ctx handled t (some p) w =
    if is_connected w.client.state && has_transport t w.client.transport
    then handle_push env ctx handled t p w
    else w
