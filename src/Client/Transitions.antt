-- ===== src/Client/Transitions.antt =====
-- `moveToDisconnectedIf`, `moveToConnectingFrom`, `moveToClosed`, and the handling of a disconnect
-- reported for a transport.
use centrifuge_go.Prelude.{
  ℕ, ◌+◌, String, Bool, true, false, List, [], ◌∷◌, ◌++◌, Option, none, some, ◌==◌, nat_key, ◌&&◌,
  ◌||◌, not, if◌then◌else◌, u64,
}
use centrifuge_go.Errors.{GoError, client_disconnected}
use centrifuge_go.Codes.{
  connecting_transport_closed, disconnected_disconnect_called, disconnected_state_invalidated,
  subscribing_transport_closed, unsubscribed_client_closed, state_invalidated_epoch,
}
use centrifuge_go.Effects.{notify, notify_sync}
use centrifuge_go.Calls.{Context, resolve_connect_futures}
use centrifuge_go.State.{
  Client, Subscription, Env, State, Disconnect, ServerSub, disconnected, connecting, closed,
  is_disconnected, is_connecting, is_connected, is_closed, is_unsubscribed, on_disconnected,
  on_connecting, on_server_subscribing, on_server_unsubscribed, on_error,
}
use centrifuge_go.Subscription.{move_to_subscribing_locked, move_to_unsubscribed, invalidate_state}
use centrifuge_go.World.{World, each_sub, in_client}
use centrifuge_go.Client.Teardown.{
  set_state_locked, drop_transport, clear_connected_state, schedule_reconnect_locked, has_transport,
  channels,
}

-- Every registered subscription moves to subscribing, in the lock hold of the client.
abbrev pub lose_subscriptions : World → World
lose_subscriptions w =
    each_sub (move_to_subscribing_locked subscribing_transport_closed "transport closed")
      w.client.subs w

-- The part that the three teardowns share: the attempt's number, the transport, the state, the
-- connected session, and the calls that wait for the connection.
unfoldable pub end_connection : Env → Context → State → ℕ → Client → Client
end_connection env ctx s attempt c = resolve_connect_futures env ctx (some client_disconnected) (
    clear_connected_state
      (set_state_locked s (drop_transport (record c { connect_attempt = attempt }))))

-- The disconnect itself, in one lock hold.
unfoldable pub disconnect_now : Env → Context → ℕ → String → World → World
disconnect_now env ctx code reason w =
    let c = w.client in
    let c1 = end_connection env ctx disconnected (u64 (c.connect_attempt + 1)) c in
    let w1 = lose_subscriptions (record w { client = c1 }) in
    let w2 =
      in_client
        (notify (is_connected c.state && c.handlers.on_server_subscribing)
          (on_server_subscribing (channels c.server_subs)))
        w1 in
    in_client (notify c.handlers.on_disconnected (on_disconnected code reason)) w2

-- `current`, checked in the same lock hold, can refuse the move. The result says whether it was
-- made.
unfoldable pub move_to_disconnected_if :
    Env → Context → (Client → Bool) → ℕ → String → World → World × Bool
move_to_disconnected_if env ctx current code reason w =
    let c = w.client in
    let moved = disconnect_now env ctx code reason w in
    if is_disconnected c.state || (is_closed c.state || not (current c))
    then (w, false)
    else (moved, true)

unfoldable pub move_to_disconnected : Env → Context → ℕ → String → World → World
move_to_disconnected env ctx code reason w =
    (move_to_disconnected_if env ctx (λ _. true) code reason w).0

abbrev pub from_transport : Option ℕ → Client → Bool
from_transport none c = true
from_transport (some t) c = has_transport t c.transport

unfoldable pub move_to_disconnected_from : Env → Context → Option ℕ → ℕ → String → World → World
move_to_disconnected_from env ctx t code reason w =
    (move_to_disconnected_if env ctx (from_transport t) code reason w).0

-- The transport of the connect attempt in progress closed: the attempt is retried.
unfoldable pub retry_connect : Env → ℕ → Client → Client
retry_connect env t c = schedule_reconnect_locked env (
    clear_connected_state (record c {
      connect_attempt = u64 (c.connect_attempt + 1);
      transport = none;
      closed_transports = c.closed_transports ++ (t ∷ []);
    }))

-- The first lock hold of the teardown of a connected client.
unfoldable pub tear_down : Env → Context → ℕ → String → World → World
tear_down env ctx code reason w =
    let c = w.client in
    let c1 = end_connection env ctx connecting c.connect_attempt c in
    let w1 = lose_subscriptions (record w { client = c1 }) in
    let w2 =
      in_client
        (notify c.handlers.on_server_subscribing (on_server_subscribing (channels c.server_subs)))
        w1 in
    in_client (notify c.handlers.on_connecting (on_connecting code reason)) w2

-- The second one, after the handlers ran.
unfoldable pub reconnect_after : Env → ℕ → World → World
reconnect_after env teardown_attempt w =
    if is_connecting w.client.state && (w.client.connect_attempt == teardown_attempt)
    then in_client (schedule_reconnect_locked env) w
    else w

unfoldable pub move_to_connecting_from :
    Env → Context → (World → World) → Option ℕ → ℕ → String → World → World
move_to_connecting_from env ctx meanwhile none code reason w =
    let c = w.client in
    let torn =
      reconnect_after env c.connect_attempt (meanwhile (tear_down env ctx code reason w)) in
    if is_connected c.state then torn else w
move_to_connecting_from env ctx meanwhile (some t) code reason w =
    let c = w.client in
    let torn =
      reconnect_after env c.connect_attempt (meanwhile (tear_down env ctx code reason w)) in
    if not (has_transport t c.transport)
    then w
    else if is_connecting c.state
    then in_client (retry_connect env t) w
    else if is_connected c.state
    then torn
    else w

-- The subscriptions that `moveToClosed` unsubscribes, chosen before the lock is released.
unfoldable pub still_subscribed : (ℕ → Subscription) → List (String × ℕ) → List (String × ℕ)
still_subscribed heap [] = []
still_subscribed heap ((channel, a) ∷ subs) =
    let rest = still_subscribed heap subs in
    if is_unsubscribed (heap a).state then rest else (channel, a) ∷ rest

-- `moveToClosed` up to the wait. The events are pushed while the queue is open.
unfoldable pub close_now : Env → Context → World → World
close_now env ctx w =
    let c = w.client in
    let c1 = end_connection env ctx closed (u64 (c.connect_attempt + 1)) c in
    let w1 =
      each_sub (move_to_unsubscribed unsubscribed_client_closed "client closed")
        (still_subscribed w.heap c1.subs) (record w { client = c1 }) in
    let w2 =
      in_client
        (notify_sync c.handlers.on_server_unsubscribed
          (on_server_unsubscribed (channels c.server_subs)))
        w1 in
    in_client
      (notify_sync (not (is_disconnected c.state) && c.handlers.on_disconnected)
        (on_disconnected disconnected_disconnect_called "disconnect called"))
      w2

-- `moveToClosed`; `meanwhile` is the wait for the reader and for the handlers still in the queue.
unfoldable pub move_to_closed : Env → Context → (World → World) → World → World
move_to_closed env ctx meanwhile w =
    let w1 = meanwhile (close_now env ctx w) in
    if is_closed w.client.state
    then w
    else record w1 { client = record (w1.client) { cb_queue_set = false; queue_closed = true } }

-- `handleError`: the event waits for its turn in the queue.
unfoldable pub handle_error : GoError → Client → Client
handle_error e c = notify_sync c.handlers.on_error (on_error e) c

abbrev pub unrecoverable : ServerSub → ServerSub
unrecoverable s = record s { offset = 0; epoch = state_invalidated_epoch }

unfoldable pub invalidate_server_subs : List (String × ServerSub) → List (String × ServerSub)
invalidate_server_subs [] = []
invalidate_server_subs ((channel, s) ∷ subs) =
    (channel, unrecoverable s) ∷ invalidate_server_subs subs

unfoldable pub invalidate_connection_state : World → World
invalidate_connection_state w =
    let c = w.client in
    each_sub invalidate_state c.subs (record w {
      client = record c {
        token = if c.has_get_token then "" else c.token;
        refresh_required = c.has_get_token || c.refresh_required;
        server_subs = invalidate_server_subs c.server_subs;
      };
    })

abbrev transport_closed : Disconnect
transport_closed = record {
  code = connecting_transport_closed;
  reason = "transport closed";
  reconnect = true;
}

abbrev pub or_transport_closed : Option Disconnect → Disconnect
or_transport_closed none = transport_closed
or_transport_closed (some d) = d

-- A report for a transport that is not the client's current one any more is dropped.
unfoldable pub handle_transport_disconnect :
    Env → Context → (World → World) → Option ℕ → Option Disconnect → World → World
handle_transport_disconnect env ctx meanwhile t report w =
    let d = or_transport_closed report in
    let w1 =
      if d.code == disconnected_state_invalidated then invalidate_connection_state w else w in
    let moved =
      if d.reconnect
      then move_to_connecting_from env ctx meanwhile t d.code d.reason w1
      else move_to_disconnected_from env ctx t d.code d.reason w1 in
    if from_transport t w.client then moved else w
