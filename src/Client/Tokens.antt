-- ===== src/Client/Tokens.antt =====
-- The connection token: `refreshToken` and the refresh of the current connected session.
use centrifuge_go.Prelude.{
  ℕ, ◌*◌, String, Bool, true, some, ◌==◌, nat_key, ◌&&◌, not, if◌then◌else◌, ltb, is_empty,
}
use centrifuge_go.Errors.{
  GoError, Result, ok, err, ServerError, server_error, unauthorized, refresh_error,
  configuration_error, other, is_unauthorized,
}
use centrifuge_go.Codes.{disconnected_unauthorized}
use centrifuge_go.Backoff.{second}
use centrifuge_go.Calls.{Context}
use centrifuge_go.Requests.{send_ignoring_error}
use centrifuge_go.State.{Client, Env, is_connected, refresh_req, refresh_cb}
use centrifuge_go.World.{World, in_client}
use centrifuge_go.Client.Transitions.{move_to_disconnected_if, handle_error}

abbrev pub is_refresh_current : ℕ → Client → Bool
is_refresh_current generation c = is_connected c.state && (c.conn_generation == generation)

-- A delay below a second is a second.
unfoldable pub schedule_refresh_locked : ℕ → Client → Client
schedule_refresh_locked delay c = record c {
  refresh_timer = some (record {
    delay = if ltb delay second then second else delay;
    key = c.conn_generation;
    armed = true;
  });
}

unfoldable pub handle_refresh_error : ℕ → Client → Client
unfolding schedule_refresh_locked
handle_refresh_error generation c =
    if is_refresh_current generation c then schedule_refresh_locked (10 * second) c else c

-- What the application does in a call of `GetToken`, its answer, and what happens in OnError.
pub record ConnectionTokenCall : Type 0 where
  pub meanwhile : World → World
  pub reply : Result String
  pub handled : World → World

unfoldable pub no_get_token : GoError
no_get_token = configuration_error (other "GetToken must be set to handle expired token")

-- `refreshToken`: without `GetToken` the configuration error is reported, and its handler runs.
unfoldable pub refresh_token : ConnectionTokenCall → World → World × Result String
unfolding no_get_token
refresh_token call w =
    if w.client.has_get_token
    then (call.meanwhile w, call.reply)
    else (call.meanwhile (in_client (handle_error no_get_token) w), err unauthorized)

unfoldable pub unauthorized_now : Env → Context → ℕ → World → World
unauthorized_now env ctx generation w =
    (move_to_disconnected_if env ctx (is_refresh_current generation) disconnected_unauthorized
      "unauthorized" w).0

-- `sendRefresh` after the token was asked for.
unfoldable pub refresh_with : Env → Context → (World → World) → ℕ → Result String → World → World
unfolding unauthorized_now
refresh_with env ctx handled generation (err e) w =
    if is_unauthorized e
    then unauthorized_now env ctx generation w
    else in_client (handle_refresh_error generation)
        (handled (in_client (handle_error (refresh_error e)) w))
refresh_with env ctx handled generation (ok token) w =
    if is_empty token
    then unauthorized_now env ctx generation w
    else in_client (send_ignoring_error env (refresh_req token) (refresh_cb generation))
        (record w { client = record (w.client) { token = token } })

unfoldable pub send_refresh : Env → Context → ConnectionTokenCall → ℕ → World → World
unfolding refresh_with
send_refresh env ctx call generation w =
    let (w1, reply) = refresh_token call w in
    if not (is_refresh_current generation w.client)
    then w
    else if not (is_refresh_current generation w1.client)
    then w1
    else refresh_with env ctx call.handled generation reply w1

-- The result of a refresh: a server error, another error, or whether the token expires and its ttl.
pub data RefreshReply : Type 0 where
  refresh_failed : GoError → RefreshReply
  refresh_refused : ServerError → RefreshReply
  refreshed : Bool → ℕ → RefreshReply

unfoldable pub retry_refresh : (World → World) → ℕ → GoError → World → World
retry_refresh handled generation e w =
    in_client (handle_refresh_error generation)
      (handled (in_client (handle_error (refresh_error e)) w))

unfoldable pub refresh_result : Env → Context → (World → World) → ℕ → RefreshReply → World → World
unfolding retry_refresh
refresh_result env ctx handled generation (refresh_failed e) w =
    retry_refresh handled generation e w
refresh_result env ctx handled generation (refresh_refused se) w =
    if se.temporary
    then retry_refresh handled generation (server_error se) w
    else (move_to_disconnected_if env ctx (is_refresh_current generation) se.code se.message w).0
refresh_result env ctx handled generation (refreshed expires ttl) w =
    if expires then in_client (schedule_refresh_locked (ttl * second)) w else w

-- The callback of the refresh command.
unfoldable pub refresh_replied : Env → Context → (World → World) → ℕ → RefreshReply → World → World
unfolding refresh_result
refresh_replied env ctx handled generation r w =
    if is_refresh_current generation w.client
    then refresh_result env ctx handled generation r w
    else w
