-- ===== src/Client/Api.antt =====
-- The calls of the application that change the connection: `Connect`, `Disconnect` and `Close`, and
-- what it reads of the registry of subscriptions.
use centrifuge_go.Prelude.{ℕ, String, Option, none, some, string_key, if◌then◌else◌, lookup, true}
use centrifuge_go.Errors.{GoError, client_closed}
use centrifuge_go.Codes.{disconnected_disconnect_called}
use centrifuge_go.Calls.{Context}
use centrifuge_go.State.{Client, Env, is_closed, stop}
use centrifuge_go.World.{World, in_client}
use centrifuge_go.Client.Transitions.{move_to_disconnected, move_to_closed}
use centrifuge_go.Client.Connect.{Attempt, start_connecting, start_reconnecting_if}

-- `Connect`.
unfoldable pub connect : Env → Context → Attempt → (World → World) → World → World × Option GoError
connect env ctx a meanwhile w = start_connecting env ctx a meanwhile w

-- `startReconnecting`.
unfoldable pub start_reconnecting : Env → Context → Attempt → World → World
start_reconnecting env ctx a w = start_reconnecting_if env ctx a (λ c. true) w

-- The function of the reconnect timer, which is not armed any more.
unfoldable pub reconnect_timer_fired : Env → Context → Attempt → World → World
reconnect_timer_fired env ctx a w =
    start_reconnecting env ctx a
      (in_client (λ c. record c { reconnect_timer = stop c.reconnect_timer }) w)

-- `Disconnect`.
unfoldable pub disconnect : Env → Context → World → World × Option GoError
disconnect env ctx w =
    if is_closed w.client.state
    then (w, some client_closed)
    else (move_to_disconnected env ctx disconnected_disconnect_called "disconnect called" w, none)

-- `Close`.
unfoldable pub close : Env → Context → (World → World) → World → World
close env ctx meanwhile w =
    if is_closed w.client.state then w else move_to_closed env ctx meanwhile w

-- `GetSubscription`.
unfoldable pub get_subscription : String → Client → Option ℕ
get_subscription channel c = lookup channel c.subs
