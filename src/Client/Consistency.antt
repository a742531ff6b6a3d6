-- ===== src/Client/Consistency.antt =====
-- What holds of a client between two lock holds, and its transitions.
pub mod Attempts
pub mod Connects
pub mod Reports
pub mod Replies
pub mod Callbacks
pub mod Futures
pub mod Runs
use centrifuge_go.Prelude.{
  ℕ, String, Bool, true, [], Option, none, some, ◌≡◌, ◌⊎◌, arith, is_some, u64, ◌+◌, not, ◌&&◌,
  nat_key, string_key,
}
use centrifuge_go.Errors.{client_disconnected}
use centrifuge_go.Codes.{
  subscribing_transport_closed, unsubscribed_client_closed, disconnected_disconnect_called,
}
use centrifuge_go.Effects.{notify, notify_sync}
use centrifuge_go.Calls.{Context}
use centrifuge_go.State.{
  Client, Env, State, disconnected, connecting, connected, closed, is_connected, is_disconnected,
  on_disconnected, on_server_subscribing, on_connecting, on_server_unsubscribed,
}
use centrifuge_go.Subscription.{move_to_subscribing_locked, move_to_unsubscribed}
use centrifuge_go.World.{World, each_sub}
use centrifuge_go.Client.Teardown.{
  set_state_locked, drop_transport, clear_connected_state, schedule_reconnect_locked, channels,
}
use centrifuge_go.Client.Transitions.{
  end_connection, disconnect_now, close_now, move_to_disconnected_if, tear_down, reconnect_after,
  retry_connect, move_to_connecting_from, move_to_closed, still_subscribed, lose_subscriptions,
}
use centrifuge_go.Client.Core.{
  SameCore, SameCore-trans, notify-SameCore, notify_sync-SameCore, each_sub-SameCore,
  resolve_connect_futures-SameCore, move_to_subscribing_locked-SparesCore,
  move_to_unsubscribed-SparesCore,
}

-- The atomic mirror agrees with the state, the token refresh is armed only while connected, a
-- transport is held only while connecting or connected, and calls wait only while connecting.
pub record IsConsistent (c : Client) : Type 0 where
  pub mirrors : c.connected ≡ is_connected c.state
  pub refreshes : is_some c.refresh_timer ≡ true → c.state ≡ connected
  pub opens : is_some c.transport ≡ true → (c.state ≡ connecting) ⊎ (c.state ≡ connected)
  pub waits : (c.connect_futures ≡ []) ⊎ (c.state ≡ connecting)

pub SameCore-IsConsistent : (c d : Client) → SameCore c d → IsConsistent d → IsConsistent c
SameCore-IsConsistent c d s v = ground arith

-- What a teardown of `c` leaves: the state `s`, no transport, refresh or waiting call, and a new
-- generation.
pub record IsTornDown (c d : Client) (s : State) (attempt : ℕ) : Type 0 where
  pub state : d.state ≡ s
  pub connected : d.connected ≡ is_connected s
  pub transport : d.transport ≡ none
  pub generation : d.conn_generation ≡ u64 (c.conn_generation + 1)
  pub attempts : d.connect_attempt ≡ attempt
  pub refresh_timer : d.refresh_timer ≡ none
  pub futures : d.connect_futures ≡ []
  pub registry : d.subs ≡ c.subs

end_connection-IsTornDown :
    (env : Env) (ctx : Context) (s : State) (attempt : ℕ) (c : Client)
    → IsTornDown c (end_connection env ctx s attempt c) s attempt
unfolding end_connection clear_connected_state set_state_locked drop_transport
end_connection-IsTornDown env ctx s attempt c =
    let c1 = set_state_locked s (drop_transport (record c { connect_attempt = attempt })) in
    ground (
      arith,
      resolve_connect_futures-SameCore env ctx (some client_disconnected)
          (clear_connected_state c1),
    )

SameCore-IsTornDown :
    (c d e : Client) (s : State) (attempt : ℕ)
    → SameCore e d
    → IsTornDown c d s attempt
    → IsTornDown c e s attempt
SameCore-IsTornDown c d e s attempt k t = ground arith

lose_subscriptions-SameCore : (w : World) → SameCore (lose_subscriptions w).client w.client
lose_subscriptions-SameCore w =
    each_sub-SameCore (move_to_subscribing_locked subscribing_transport_closed "transport closed")
      w.client.subs w
      (move_to_subscribing_locked-SparesCore subscribing_transport_closed "transport closed")

pub disconnect_now-IsTornDown :
    (env : Env) (ctx : Context) (code : ℕ) (reason : String) (w : World)
    → IsTornDown w.client
        (disconnect_now env ctx code reason w).client
        disconnected
        (u64 (w.client.connect_attempt + 1))
unfolding disconnect_now
disconnect_now-IsTornDown env ctx code reason w =
    let c = w.client in
    let c1 = end_connection env ctx disconnected (u64 (c.connect_attempt + 1)) c in
    let w1 = lose_subscriptions (record w { client = c1 }) in
    let shown = is_connected c.state && c.handlers.on_server_subscribing in
    let e = on_server_subscribing (channels c.server_subs) in
    SameCore-IsTornDown c c1 _ disconnected (u64 (c.connect_attempt + 1))
      (SameCore-trans
        (notify-SameCore c.handlers.on_disconnected (on_disconnected code reason)
          (notify shown e w1.client))
        (SameCore-trans (notify-SameCore shown e w1.client)
          (lose_subscriptions-SameCore (record w { client = c1 }))))
      (end_connection-IsTornDown env ctx disconnected (u64 (c.connect_attempt + 1)) c)

pub tear_down-IsTornDown :
    (env : Env) (ctx : Context) (code : ℕ) (reason : String) (w : World)
    → IsTornDown w.client
        (tear_down env ctx code reason w).client
        connecting
        w.client.connect_attempt
unfolding tear_down
tear_down-IsTornDown env ctx code reason w =
    let c = w.client in
    let c1 = end_connection env ctx connecting c.connect_attempt c in
    let w1 = lose_subscriptions (record w { client = c1 }) in
    let e = on_server_subscribing (channels c.server_subs) in
    SameCore-IsTornDown c c1 _ connecting c.connect_attempt
      (SameCore-trans
        (notify-SameCore c.handlers.on_connecting (on_connecting code reason)
          (notify c.handlers.on_server_subscribing e w1.client))
        (SameCore-trans (notify-SameCore c.handlers.on_server_subscribing e w1.client)
          (lose_subscriptions-SameCore (record w { client = c1 }))))
      (end_connection-IsTornDown env ctx connecting c.connect_attempt c)

pub close_now-IsTornDown :
    (env : Env) (ctx : Context) (w : World)
    → IsTornDown w.client (close_now env ctx w).client closed (u64 (w.client.connect_attempt + 1))
unfolding close_now
close_now-IsTornDown env ctx w =
    let c = w.client in
    let c1 = end_connection env ctx closed (u64 (c.connect_attempt + 1)) c in
    let op = move_to_unsubscribed unsubscribed_client_closed "client closed" in
    let subs = still_subscribed w.heap c1.subs in
    let w1 = each_sub op subs (record w { client = c1 }) in
    let e = on_server_unsubscribed (channels c.server_subs) in
    let shown = not (is_disconnected c.state) && c.handlers.on_disconnected in
    SameCore-IsTornDown c c1 _ closed (u64 (c.connect_attempt + 1))
      (SameCore-trans
        (notify_sync-SameCore shown
          (on_disconnected disconnected_disconnect_called "disconnect called")
          (notify_sync c.handlers.on_server_unsubscribed e w1.client))
        (SameCore-trans (notify_sync-SameCore c.handlers.on_server_unsubscribed e w1.client) (
          each_sub-SameCore op subs (record w { client = c1 })
            (move_to_unsubscribed-SparesCore unsubscribed_client_closed "client closed"))))
      (end_connection-IsTornDown env ctx closed (u64 (c.connect_attempt + 1)) c)

-- A disconnect, a lost connection and a close each leave no transport, no token refresh and no
-- waiting call, the mirror in agreement with the state, a new connected session, and the registered
-- subscriptions; a disconnect and a close start a new attempt too.
pub ends_connection :
    (env : Env) (ctx : Context) (code : ℕ) (reason : String) (w : World)
    → IsTornDown w.client
        (disconnect_now env ctx code reason w).client
        disconnected
        (u64 (w.client.connect_attempt + 1))
      × IsTornDown w.client
          (tear_down env ctx code reason w).client
          connecting
          w.client.connect_attempt
      × IsTornDown w.client (close_now env ctx w).client closed (u64 (w.client.connect_attempt + 1))
ends_connection env ctx code reason w = (
  disconnect_now-IsTornDown env ctx code reason w,
  tear_down-IsTornDown env ctx code reason w,
  close_now-IsTornDown env ctx w,
)

pub IsTornDown-IsConsistent :
    {c d : Client} {s : State} {attempt : ℕ} → IsTornDown c d s attempt → IsConsistent d
IsTornDown-IsConsistent t = ground arith

abbrev pub KeepsConsistent : (World → World) → Type 0
KeepsConsistent g = (w : World) → IsConsistent w.client → IsConsistent (g w).client

pub schedule_reconnect_locked-IsConsistent :
    (env : Env) (c : Client) → IsConsistent c → IsConsistent (schedule_reconnect_locked env c)
unfolding schedule_reconnect_locked
schedule_reconnect_locked-IsConsistent env c v = ground arith

-- A disconnect keeps a client consistent, whether or not its condition lets it happen: the atomic
-- mirror agrees with the state, the token refresh is armed only while connected, a transport is held
-- only while connecting or connected, and calls wait only while connecting.
pub move_to_disconnected_if-IsConsistent :
    (env : Env) (ctx : Context) (current : Client → Bool) (code : ℕ) (reason : String) (w : World)
    → IsConsistent w.client
    → IsConsistent (move_to_disconnected_if env ctx current code reason w).0.client
unfolding move_to_disconnected_if
move_to_disconnected_if-IsConsistent env ctx current code reason w v =
    ground (arith, IsTornDown-IsConsistent (disconnect_now-IsTornDown env ctx code reason w))

pub reconnect_after-IsConsistent :
    (env : Env) (attempt : ℕ) → KeepsConsistent (reconnect_after env attempt)
unfolding reconnect_after
reconnect_after-IsConsistent env attempt w v =
    ground (arith, schedule_reconnect_locked-IsConsistent env w.client)

retry_connect-IsConsistent :
    (env : Env) (t : ℕ) (c : Client)
    → c.state ≡ connecting
    → IsConsistent c
    → IsConsistent (retry_connect env t c)
unfolding retry_connect clear_connected_state schedule_reconnect_locked
retry_connect-IsConsistent env t c e v = ground arith

-- A lost transport keeps a client consistent in every state, if what runs between the teardown and
-- the scheduling of the reconnect does.
pub move_to_connecting_from-IsConsistent :
    (env : Env) (ctx : Context) (meanwhile : World → World) (t : Option ℕ) (code : ℕ)
    (reason : String)
    → KeepsConsistent meanwhile
    → (w : World) → IsConsistent w.client
    → IsConsistent (move_to_connecting_from env ctx meanwhile t code reason w).client
unfolding move_to_connecting_from
move_to_connecting_from-IsConsistent env ctx meanwhile none code reason k w v =
    let torn = tear_down env ctx code reason w in
    let vt = k torn (IsTornDown-IsConsistent (tear_down-IsTornDown env ctx code reason w)) in
    ground (arith, reconnect_after-IsConsistent env w.client.connect_attempt (meanwhile torn) vt)
move_to_connecting_from-IsConsistent env ctx meanwhile (some t) code reason k w v =
    let torn = tear_down env ctx code reason w in
    let vt = k torn (IsTornDown-IsConsistent (tear_down-IsTornDown env ctx code reason w)) in
    ground (
      arith,
      reconnect_after-IsConsistent env w.client.connect_attempt (meanwhile torn) vt,
      retry_connect-IsConsistent env t w.client,
    )

-- Close keeps a client consistent, if what runs while it waits does.
pub move_to_closed-IsConsistent :
    (env : Env) (ctx : Context) (meanwhile : World → World)
    → KeepsConsistent meanwhile
    → (w : World) → IsConsistent w.client
    → IsConsistent (move_to_closed env ctx meanwhile w).client
unfolding move_to_closed
move_to_closed-IsConsistent env ctx meanwhile k w v =
    let closing = close_now env ctx w in
    ground (arith, k closing (IsTornDown-IsConsistent (close_now-IsTornDown env ctx w)))
