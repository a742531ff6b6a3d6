-- ===== src/Client/Connect.antt =====
-- A connect attempt: `startConnecting`, `startReconnectingIf`, and the callback of the connect
-- command. The dial and the closing of a transport are waits, as the handlers are.
use centrifuge_go.Prelude.{
  ℕ, ◌+◌, ◌*◌, String, Bool, true, false, List, [], ◌∷◌, ◌++◌, Option, none, some, ◌==◌, nat_key,
  string_key, ◌&&◌, ◌||◌, not, if◌then◌else◌, u64, ltb, is_empty,
}
use centrifuge_go.Errors.{
  GoError, Result, ok, err, server_error, client_closed, refresh_error, transport_error,
  connect_error, is_unauthorized,
}
use centrifuge_go.Codes.{connecting_connect_called, disconnected_unauthorized, error_token_expired}
use centrifuge_go.Backoff.{second}
use centrifuge_go.Protocol.{Slice, SubscribeResult}
use centrifuge_go.Effects.{notify, spawn}
use centrifuge_go.Calls.{Context, resolve_connect_futures}
use centrifuge_go.Requests.{next_cmd_id, send_async_on}
use centrifuge_go.State.{
  Client, Env, Callback, connected, connecting, is_connecting, is_closed, is_disconnected,
  connect_req, connect_cb, reader_task, ping_timer, on_connecting, on_connected,
}
use centrifuge_go.Subscription.{resubscribe}
use centrifuge_go.World.{World, each_sub, in_client}
use centrifuge_go.Client.Teardown.{
  set_state_locked, drop_transport, schedule_reconnect_locked, is_current_attempt,
  is_connected_attempt,
}
use centrifuge_go.Client.Transitions.{move_to_disconnected_if, handle_error}
use centrifuge_go.Client.ServerSubs.{connect_server_sub, remove_unlisted, recover_positions}
use centrifuge_go.Client.Tokens.{ConnectionTokenCall, refresh_token, schedule_refresh_locked}

abbrev pub close_transport : ℕ → Client → Client
close_transport t c = record c { closed_transports = c.closed_transports ++ (t ∷ []) }

abbrev pub retry_if_current : Env → ℕ → World → World
retry_if_current env attempt w =
    if is_current_attempt attempt w.client then in_client (schedule_reconnect_locked env) w else w

-- The first lock hold of `startReconnectingIf`: the attempt that it starts, if any.
unfoldable pub begin_attempt : (Client → Bool) → Client → Option ℕ × Client
begin_attempt current c =
    let c1 = record c { round = c.round + 1 } in
    let attempt = u64 (c.connect_attempt + 1) in
    if not (is_connecting c.state) || not (current c)
    then (none, c1)
    else (some attempt, drop_transport (record c1 { connect_attempt = attempt }))

-- Whether the attempt goes on after the token was asked for.
pub data TokenStep : Type 0 where
  go_on stop_here : World → TokenStep

unfoldable pub token_refused :
    Env → Context → (World → World) → ℕ → Bool → GoError → World → TokenStep
token_refused env ctx handled attempt had_get_token e w =
    let still =
      λ (c : Client). is_current_attempt attempt c && (had_get_token || c.refresh_required) in
    let (w1, disconnected) =
      move_to_disconnected_if env ctx still disconnected_unauthorized "unauthorized" w in
    let w2 = handled (in_client (handle_error (refresh_error e)) w) in
    if is_unauthorized e
    then (if disconnected || had_get_token then stop_here w1 else go_on w1)
    else stop_here (retry_if_current env attempt w2)

unfoldable pub connect_token : Env → Context → ConnectionTokenCall → ℕ → World → TokenStep
connect_token env ctx call attempt w =
    let c = w.client in
    let (w1, reply) = refresh_token call w in
    if c.refresh_required || (is_empty c.token && c.has_get_token)
    then elim reply [
      | err e ↦ token_refused env ctx call.handled attempt c.has_get_token e w1
      | ok token ↦
          if is_current_attempt attempt w1.client
          then go_on (record w1 { client = record (w1.client) { token = token } })
          else stop_here w1
    ]
    else go_on w

unfoldable pub send_connect : Env → ℕ → Callback → Client → Client × Option GoError
send_connect env t cb c =
    let (id, c1) = next_cmd_id c in
    let request = connect_req c.token (recover_positions c.server_subs) in
    send_async_on env (some t) (record { id = id; request = request }) cb c1

-- The lock hold after the dial: the connect command is written before the transport becomes the
-- client's. The second part is the error to report once the lock is released.
unfoldable pub transport_opened : Env → ℕ → ℕ → Client → Client × Option GoError
transport_opened env attempt t c =
    let c1 = spawn (reader_task t) (record c { refresh_required = false }) in
    let (c2, e) = send_connect env t (connect_cb t attempt c.token) c1 in
    if not (is_current_attempt attempt c) then (close_transport t c, none) else elim e [
      | some x ↦ (schedule_reconnect_locked env (close_transport t c2), some (connect_error x))
      | none ↦ (record c2 { transport = some t }, none)
    ]

-- What is decided outside during an attempt: the call of `GetToken`, the dial with what happens
-- meanwhile, and what happens in OnError.
pub record Attempt : Type 0 where
  pub token_call : ConnectionTokenCall
  pub dialing : World → World
  pub dialed : Result ℕ
  pub handled : World → World

abbrev pub report_error : Option GoError → Client → Client
report_error none c = c
report_error (some e) c = handle_error e c

unfoldable pub dial : Env → Attempt → ℕ → Result ℕ → World → World
dial env a attempt (err e) w =
    retry_if_current env attempt (a.handled (in_client (handle_error (transport_error e)) w))
dial env a attempt (ok t) w =
    let (c, e) = transport_opened env attempt t w.client in record w { client = report_error e c }

unfoldable pub go_on_with : Env → Attempt → ℕ → TokenStep → World → World
unfolding dial
go_on_with env a attempt (stop_here w1) w = w1
go_on_with env a attempt (go_on w1) w = dial env a attempt a.dialed (a.dialing w1)

unfoldable pub run_attempt : Env → Context → Attempt → Option ℕ × Client → World → World
unfolding go_on_with
run_attempt env ctx a (none, c) w = record w { client = c }
run_attempt env ctx a (some attempt, c) w =
    let w1 = record w { client = c } in
    go_on_with env a attempt (connect_token env ctx a.token_call attempt w1) w1

unfoldable pub start_reconnecting_if : Env → Context → Attempt → (Client → Bool) → World → World
unfolding run_attempt
start_reconnecting_if env ctx a current w = run_attempt env ctx a (begin_attempt current w.client) w

-- `startConnecting`; `meanwhile` is OnConnecting.
unfoldable pub start_connecting :
    Env → Context → Attempt → (World → World) → World → World × Option GoError
start_connecting env ctx a meanwhile w =
    let c = w.client in
    let c1 = set_state_locked connecting (record c { close_ch_open = true }) in
    let c2 =
      notify c.handlers.on_connecting (on_connecting connecting_connect_called "connect called")
        c1 in
    let same = λ (d : Client). d.connect_attempt == c.connect_attempt in
    let started = start_reconnecting_if env ctx a same (meanwhile (record w { client = c2 })) in
    if is_closed c.state
    then (w, some client_closed)
    else if not (is_disconnected c.state)
    then (w, none)
    else (started, none)

-- `protocol.ConnectResult`.
pub record ConnectResult : Type 0 where
  pub client : String
  pub version : String
  pub data_bytes : Slice
  pub expires : Bool
  pub ttl : ℕ
  pub ping : ℕ
  pub pong : Bool
  pub subs : List (String × SubscribeResult)

-- `isTokenExpiredError`, `isServerError`, `isTemporaryError`: assertions on the type of the error,
-- which do not follow `Unwrap`.
unfoldable pub is_token_expired_error : GoError → Bool
is_token_expired_error (server_error e) = e.code == error_token_expired
is_token_expired_error _ = false

unfoldable pub is_server_error : GoError → Bool
is_server_error (server_error e) = true
is_server_error _ = false

unfoldable pub is_temporary_error : GoError → Bool
is_temporary_error (server_error e) = e.temporary
is_temporary_error _ = false

-- The last part of a failed connect, once the transport is closed.
unfoldable pub after_connect_error : Env → Context → ℕ → String → GoError → World → World
after_connect_error env ctx attempt connect_token (server_error se) w =
    let c = w.client in
    let needed = c.has_get_token || (c.token == connect_token) in
    let c1 = record c { refresh_required = needed || c.refresh_required } in
    if is_token_expired_error (server_error se)
    then (if is_current_attempt attempt c
        then record w { client = schedule_reconnect_locked env c1 }
        else w)
    else if not (is_temporary_error (server_error se))
    then (move_to_disconnected_if env ctx (is_current_attempt attempt) se.code se.message w).0
    else retry_if_current env attempt w
after_connect_error env ctx attempt connect_token e w = retry_if_current env attempt w

-- The callback of the connect command for an error; `handled` is OnError, `closing` the time that
-- the transport takes to close.
unfoldable pub connect_failed :
    Env → Context → (World → World) → (World → World) → ℕ → ℕ → String → GoError → World → World
connect_failed env ctx handled closing t attempt connect_token e w =
    let w1 = handled (in_client (handle_error (connect_error e)) w) in
    let w2 = record w1 { client = close_transport t (record (w1.client) { transport = none }) } in
    if not (is_current_attempt attempt w.client)
    then in_client (close_transport t) w
    else if not (is_current_attempt attempt w1.client)
    then in_client (close_transport t) w1
    else after_connect_error env ctx attempt connect_token e (closing w2)

-- The lock hold in which the client becomes connected.
unfoldable pub connected_now : Env → Context → ConnectResult → Client → Client
connected_now env ctx r c =
    let c1 = set_state_locked connected c in
    let c2 = if r.expires then schedule_refresh_locked (r.ttl * second) c1 else c1 in
    let c3 = resolve_connect_futures env ctx none c2 in
    notify c.handlers.on_connected (on_connected r.client r.version r.data_bytes) c3

-- The loop over `res.Subs`, with `meanwhile` after each round.
unfoldable pub connect_server_subs :
    (World → World) → ℕ → List (String × SubscribeResult) → World → World
connect_server_subs meanwhile attempt [] w = w
connect_server_subs meanwhile attempt ((channel, r) ∷ rest) w =
    let last =
      connect_server_subs meanwhile attempt rest
        (meanwhile (in_client (connect_server_sub attempt channel r) w)) in
    if is_connected_attempt attempt w.client then last else w

-- The last lock hold: pings are awaited, and every subscription that is subscribing resubscribes.
unfoldable pub finish_connect : Env → ConnectResult → ℕ → ℕ → World → World
finish_connect env r t attempt w =
    let c = record (w.client) { reconnect_attempts = 0 } in
    let c1 =
      if ltb 0 r.ping then spawn (ping_timer t r.ping) (record c { send_pong = r.pong }) else c in
    if is_connected_attempt attempt c
    then each_sub (resubscribe env) c.subs (record w { client = c1 })
    else record w { client = c }

-- The callback of the connect command for a result.
unfoldable pub connect_replied :
    Env → Context → (World → World) → ConnectResult → ℕ → ℕ → World → World
connect_replied env ctx meanwhile r t attempt w =
    let w1 = meanwhile (in_client (connected_now env ctx r) w) in
    let w2 = connect_server_subs meanwhile attempt r.subs w1 in
    let w3 = meanwhile (in_client (remove_unlisted r.subs) w2) in
    if not (is_current_attempt attempt w.client)
    then in_client (close_transport t) w
    else if not (is_connected_attempt attempt w2.client)
    then w2
    else finish_connect env r t attempt w3
