-- ===== src/Client/Consistency/Reports.antt =====
-- The consistency of a client: disconnects reported for a transport, and token refreshes.
use centrifuge_go.Prelude.{
  ℕ, String, true, Option, ◌≡◌, ◌*◌, arith, nat_key, if◌then◌else◌, ◌==◌, ◌||◌,
}
use centrifuge_go.Codes.{disconnected_unauthorized, disconnected_state_invalidated}
use centrifuge_go.Errors.{GoError, Result, ok, err, server_error, refresh_error}
use centrifuge_go.Calls.{Context}
use centrifuge_go.State.{refresh_req, refresh_cb, Client, Env, Disconnect, connected}
use centrifuge_go.Subscription.{invalidate_state}
use centrifuge_go.World.{World, in_client}
use centrifuge_go.Backoff.{second}
use centrifuge_go.Client.Core.Frames.{send_ignoring_error-SameCore}
use centrifuge_go.Client.{
  schedule_refresh_locked, handle_refresh_error, refresh_with, unauthorized_now, is_refresh_current,
  send_refresh, RefreshReply, refresh_failed, refresh_refused, refreshed, refresh_result,
  retry_refresh, refresh_replied, handle_error, move_to_disconnected, move_to_disconnected_from,
  or_transport_closed, from_transport, handle_transport_disconnect, invalidate_connection_state,
  invalidate_server_subs, ConnectionTokenCall, refresh_token,
}
use centrifuge_go.Client.Core.{each_sub-SameCore, invalidate_state-SparesCore}
use centrifuge_go.Client.Consistency.{
  IsConsistent, KeepsConsistent, move_to_disconnected_if-IsConsistent,
  move_to_connecting_from-IsConsistent,
}
use centrifuge_go.Client.Consistency.Attempts.{
  handle_error-IsConsistent, refresh_token-IsConsistent,
}

invalidate_connection_state-IsConsistent : KeepsConsistent invalidate_connection_state
unfolding invalidate_connection_state
invalidate_connection_state-IsConsistent w v =
    let c = w.client in
    let w1 = record w {
      client = record c {
        token = if c.has_get_token then "" else c.token;
        refresh_required = c.has_get_token || c.refresh_required;
        server_subs = invalidate_server_subs c.server_subs;
      };
    } in
    ground (arith, v, each_sub-SameCore invalidate_state c.subs w1 invalidate_state-SparesCore)

pub move_to_disconnected_from-IsConsistent :
    (env : Env) (ctx : Context) (t : Option ℕ) (code : ℕ) (reason : String)
    → KeepsConsistent (move_to_disconnected_from env ctx t code reason)
unfolding move_to_disconnected_from
move_to_disconnected_from-IsConsistent env ctx t code reason w v =
    move_to_disconnected_if-IsConsistent env ctx (from_transport t) code reason w v

pub move_to_disconnected-IsConsistent :
    (env : Env) (ctx : Context) (code : ℕ) (reason : String)
    → KeepsConsistent (move_to_disconnected env ctx code reason)
unfolding move_to_disconnected
move_to_disconnected-IsConsistent env ctx code reason w v =
    move_to_disconnected_if-IsConsistent env ctx (λ c. true) code reason w v

pub handle_transport_disconnect-IsConsistent :
    (env : Env) (ctx : Context) (meanwhile : World → World) (t : Option ℕ)
    (report : Option Disconnect)
    → KeepsConsistent meanwhile
    → KeepsConsistent (handle_transport_disconnect env ctx meanwhile t report)
unfolding handle_transport_disconnect
handle_transport_disconnect-IsConsistent env ctx meanwhile t report k w v =
    let d = or_transport_closed report in
    let w1 =
      if d.code == disconnected_state_invalidated then invalidate_connection_state w else w in
    let v1 : IsConsistent w1.client =
      ground (arith, v, invalidate_connection_state-IsConsistent w v) in
    ground (
      arith,
      v,
      move_to_connecting_from-IsConsistent env ctx meanwhile t d.code d.reason k w1 v1,
      move_to_disconnected_from-IsConsistent env ctx t d.code d.reason w1 v1,
    )

pub schedule_refresh_locked-IsConsistent :
    (delay : ℕ) (c : Client)
    → c.state ≡ connected
    → IsConsistent c
    → IsConsistent (schedule_refresh_locked delay c)
unfolding schedule_refresh_locked
schedule_refresh_locked-IsConsistent delay c s v = ground (arith, s, v)

handle_refresh_error-IsConsistent :
    (generation : ℕ) (c : Client)
    → IsConsistent c
    → IsConsistent (handle_refresh_error generation c)
unfolding handle_refresh_error
handle_refresh_error-IsConsistent generation c v =
    ground (arith, v, schedule_refresh_locked-IsConsistent (10 * second) c)

-- The error is reported, and the refresh is tried again.
refresh_reported-IsConsistent :
    (handled : World → World) (generation : ℕ) (e : GoError) (w : World)
    → KeepsConsistent handled
    → IsConsistent w.client
    → IsConsistent (
        handle_refresh_error generation
          (handled (in_client (handle_error (refresh_error e)) w)).client)
refresh_reported-IsConsistent handled generation e w h v =
    let w1 = in_client (handle_error (refresh_error e)) w in
    handle_refresh_error-IsConsistent generation (handled w1).client
      (h w1 (handle_error-IsConsistent (refresh_error e) w.client v))

refresh_with-IsConsistent :
    (env : Env) (ctx : Context) (handled : World → World) (generation : ℕ) (reply : Result String)
    → KeepsConsistent handled
    → KeepsConsistent (refresh_with env ctx handled generation reply)
unfolding refresh_with unauthorized_now
refresh_with-IsConsistent env ctx handled generation (err e) h w v = ground (
  arith,
  move_to_disconnected_if-IsConsistent env ctx (is_refresh_current generation)
      disconnected_unauthorized "unauthorized" w v,
  refresh_reported-IsConsistent handled generation e w h v,
)
refresh_with-IsConsistent env ctx handled generation (ok token) h w v = ground (
  arith,
  v,
  move_to_disconnected_if-IsConsistent env ctx (is_refresh_current generation)
      disconnected_unauthorized "unauthorized" w v,
  send_ignoring_error-SameCore env (refresh_req token) (refresh_cb generation)
      (record (w.client) { token = token }),
)

pub send_refresh-IsConsistent :
    (env : Env) (ctx : Context) (call : ConnectionTokenCall) (generation : ℕ)
    → KeepsConsistent call.meanwhile
    → KeepsConsistent call.handled
    → KeepsConsistent (send_refresh env ctx call generation)
unfolding send_refresh
send_refresh-IsConsistent env ctx call generation m h w v =
    let w1 = (refresh_token call w).0 in
    let v1 = refresh_token-IsConsistent call m w v in
    ground (
      arith,
      v,
      v1,
      refresh_with-IsConsistent env ctx call.handled generation (refresh_token call w).1 h w1 v1,
    )

refresh_result-IsConsistent :
    (env : Env) (ctx : Context) (handled : World → World) (generation : ℕ) (r : RefreshReply)
    (w : World)
    → KeepsConsistent handled
    → w.client.state ≡ connected
    → IsConsistent w.client
    → IsConsistent (refresh_result env ctx handled generation r w).client
unfolding refresh_result retry_refresh
refresh_result-IsConsistent env ctx handled generation (refresh_failed e) w h s v =
    refresh_reported-IsConsistent handled generation e w h v
refresh_result-IsConsistent env ctx handled generation (refresh_refused se) w h s v = ground (
  arith,
  refresh_reported-IsConsistent handled generation (server_error se) w h v,
  move_to_disconnected_if-IsConsistent env ctx (is_refresh_current generation) se.code se.message w
      v,
)
refresh_result-IsConsistent env ctx handled generation (refreshed expires ttl) w h s v =
    ground (arith, v, schedule_refresh_locked-IsConsistent (ttl * second) w.client s v)

pub refresh_replied-IsConsistent :
    (env : Env) (ctx : Context) (handled : World → World) (generation : ℕ) (r : RefreshReply)
    → KeepsConsistent handled
    → KeepsConsistent (refresh_replied env ctx handled generation r)
unfolding refresh_replied
refresh_replied-IsConsistent env ctx handled generation r h w v =
    ground (arith, v, refresh_result-IsConsistent env ctx handled generation r w h)
