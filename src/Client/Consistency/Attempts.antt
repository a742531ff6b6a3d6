-- ===== src/Client/Consistency/Attempts.antt =====
-- The consistency of a client: asking for a token, dialing, and sending the connect command.
use centrifuge_go.Prelude.{ℕ, Bool, false, some, arith, inl, inr, Option-cases, nat_key, ◌&&◌, ◌||◌}
use centrifuge_go.Codes.{disconnected_unauthorized}
use centrifuge_go.Errors.{GoError, Result, ok, err, transport_error, refresh_error, Result-cases}
use centrifuge_go.Calls.{Context}
use centrifuge_go.Effects.{notify_sync, spawn}
use centrifuge_go.Requests.{next_cmd_id}
use centrifuge_go.State.{Client, Env, Callback, reader_task, connect_req, connect_cb}
use centrifuge_go.World.{World, in_client}
use centrifuge_go.Client.{
  drop_transport, schedule_reconnect_locked, handle_error, is_current_attempt, ConnectionTokenCall,
  refresh_token, no_get_token, TokenStep, go_on, stop_here, begin_attempt, retry_if_current,
  token_refused, connect_token, send_connect, transport_opened, Attempt, dial, recover_positions,
}
use centrifuge_go.Client.Core.{
  SameCore, SameCore-trans, next_cmd_id-SameCore, send_async_on-SameCore,
}
use centrifuge_go.Client.Consistency.{
  IsConsistent, KeepsConsistent, move_to_disconnected_if-IsConsistent,
  schedule_reconnect_locked-IsConsistent,
}

pub handle_error-IsConsistent :
    (e : GoError) (c : Client) → IsConsistent c → IsConsistent (handle_error e c)
unfolding handle_error notify_sync
handle_error-IsConsistent e c v = ground (arith, v)

pub retry_if_current-IsConsistent :
    (env : Env) (attempt : ℕ) → KeepsConsistent (retry_if_current env attempt)
retry_if_current-IsConsistent env attempt w v =
    ground (arith, v, schedule_reconnect_locked-IsConsistent env w.client v)

pub refresh_token-IsConsistent :
    (call : ConnectionTokenCall)
    → KeepsConsistent call.meanwhile
    → KeepsConsistent (λ w. (refresh_token call w).0)
unfolding refresh_token
refresh_token-IsConsistent call m w v =
    let w1 = in_client (handle_error no_get_token) w in
    ground (arith, m w v, m w1 (handle_error-IsConsistent no_get_token w.client v))

-- The world that a step of the attempt ends with.
abbrev pub reached_world : TokenStep → World
reached_world (go_on w) = w
reached_world (stop_here w) = w

token_refused-IsConsistent :
    (env : Env) (ctx : Context) (handled : World → World) (attempt : ℕ) (had : Bool) (e : GoError)
    → KeepsConsistent handled
    → KeepsConsistent (λ w. reached_world (token_refused env ctx handled attempt had e w))
unfolding token_refused
token_refused-IsConsistent env ctx handled attempt had e k w v =
    let still = λ (c : Client). is_current_attempt attempt c && (had || c.refresh_required) in
    let w1 = in_client (handle_error (refresh_error e)) w in
    let w2 = handled w1 in
    let v2 = k w1 (handle_error-IsConsistent (refresh_error e) w.client v) in
    ground (
      arith,
      move_to_disconnected_if-IsConsistent env ctx still disconnected_unauthorized "unauthorized" w
          v,
      retry_if_current-IsConsistent env attempt w2 v2,
    )

pub connect_token-IsConsistent :
    (env : Env) (ctx : Context) (call : ConnectionTokenCall) (attempt : ℕ)
    → KeepsConsistent call.meanwhile
    → KeepsConsistent call.handled
    → KeepsConsistent (λ w. reached_world (connect_token env ctx call attempt w))
unfolding connect_token
connect_token-IsConsistent env ctx call attempt m h w v =
    let w1 = (refresh_token call w).0 in
    let v1 = refresh_token-IsConsistent call m w v in
    elim (Result-cases (refresh_token call w).1) [
      | inl (token, n) ↦ ground (arith, n, v, v1)
      | inr (e, n) ↦ ground (
        arith,
        n,
        v,
        v1,
        token_refused-IsConsistent env ctx call.handled attempt w.client.has_get_token e h w1 v1,
      )
    ]

send_connect-SameCore :
    (env : Env) (t : ℕ) (cb : Callback) (c : Client) → SameCore (send_connect env t cb c).0 c
unfolding send_connect
send_connect-SameCore env t cb c =
    let request = connect_req c.token (recover_positions c.server_subs) in
    SameCore-trans
      (send_async_on-SameCore env (some t) (record { id = (next_cmd_id c).0; request = request }) cb
        (next_cmd_id c).1)
      (next_cmd_id-SameCore c)

transport_opened-IsConsistent :
    (env : Env) (attempt t : ℕ) (c : Client)
    → IsConsistent c
    → IsConsistent (transport_opened env attempt t c).0
unfolding transport_opened schedule_reconnect_locked spawn
transport_opened-IsConsistent env attempt t c v =
    let c1 = spawn (reader_task t) (record c { refresh_required = false }) in
    let cb = connect_cb t attempt c.token in
    let same = send_connect-SameCore env t cb c1 in
    elim (Option-cases (send_connect env t cb c1).1) [
      | inl n ↦ ground (arith, n, v, same)
      | inr (e, n) ↦ ground (arith, n, v, same)
    ]

pub dial-IsConsistent :
    (env : Env) (a : Attempt) (attempt : ℕ) (dialed : Result ℕ)
    → KeepsConsistent a.handled
    → KeepsConsistent (dial env a attempt dialed)
unfolding dial
dial-IsConsistent env a attempt (err e) h w v =
    let w1 = in_client (handle_error (transport_error e)) w in
    retry_if_current-IsConsistent env attempt (a.handled w1)
      (h w1 (handle_error-IsConsistent (transport_error e) w.client v))
dial-IsConsistent env a attempt (ok t) h w v =
    let c = (transport_opened env attempt t w.client).0 in
    let vc = transport_opened-IsConsistent env attempt t w.client v in
    elim (Option-cases (transport_opened env attempt t w.client).1) [
      | inl n ↦ ground (arith, n, vc)
      | inr (e, n) ↦ ground (arith, n, vc, handle_error-IsConsistent e c vc)
    ]

pub begin_attempt-IsConsistent :
    (current : Client → Bool) (c : Client)
    → IsConsistent c
    → IsConsistent (begin_attempt current c).1
unfolding begin_attempt drop_transport
begin_attempt-IsConsistent current c v = elim (Option-cases c.transport) [
  | inl n ↦ ground (arith, n, v)
  | inr (t, n) ↦ ground (arith, n, v)
]
