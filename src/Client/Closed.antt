-- ===== src/Client/Closed.antt =====
-- A closed client: what each operation does then.
pub mod Callbacks
pub mod Runs
use centrifuge_go.Prelude.{
  ℕ, String, Bool, true, false, List, [], ◌∷◌, Option, none, some, ◌≡◌, ◌∙◌, ◌+◌, ◌||◌, subst, sym,
  ap, delete, arith, inl, inr, Option-cases, nat_key, string_key, lookup, insert, if◌then◌else◌,
  ◌==◌,
}
use centrifuge_go.Codes.{
  disconnected_bad_protocol, disconnected_state_invalidated, disconnected_disconnect_called,
}
use centrifuge_go.Errors.{
  GoError, Result, ok, err, timeout, client_disconnected, client_closed, delta_error,
}
use centrifuge_go.Calls.{Context, finish_call, on_connect, connect_future_timeout, run_call}
use centrifuge_go.Effects.{notify_sync, notify}
use centrifuge_go.Protocol.{WirePublication, SubscribeResult}
use centrifuge_go.Requests.{send_on, pop_request, unsubscribe_done}
use centrifuge_go.State.{
  stop, Client, Env, Call, Callback, Command, Disconnect, Frame, State, SubState, closed,
  connect_cb, subscribe_cb, unsubscribe_cb, refresh_cb, sub_refresh_cb, call_cb, pong_req,
}
use centrifuge_go.Subscription.{subscribe_replied, invalidate_state}
use centrifuge_go.Subscription
use centrifuge_go.World.{World, in_client, on_sub, put, frame, each_sub}
use centrifuge_go.Client.{
  Attempt, begin_attempt, run_attempt, start_reconnecting_if, start_connecting,
  move_to_disconnected_if, move_to_disconnected_from, move_to_disconnected, move_to_connecting_from,
  handle_transport_disconnect, invalidate_connection_state, invalidate_server_subs,
  or_transport_closed, from_transport, connect, start_reconnecting, reconnect_timer_fired,
  disconnect, close, handle_error, delta_failed, on_sub_delta, send_delay_ping, handle_unsolicited,
  Push, connect_failed, connect_replied, ConnectResult, connect_result, WireConnect, WireResult,
  subscribe_result, Reply, Waits, answer, error_of, refresh_answer, connect_answer,
  subscribe_answer, run_callback, fail_callback, handle_reply, request_timeout, refresh_replied,
  RefreshReply, refresh_failed, ConnectionTokenCall, send_refresh, deliver_server,
  adopt_server_position, new_subscription, remove_subscription, set_token,
}
use centrifuge_go.Client.Core.{
  SameCore, SparesCore, run_call-SameCore, send_on-SameCore, each_sub-SameCore,
  invalidate_state-SparesCore,
}
use centrifuge_go.Client.Core.Waits.{KeepsClient, IsAboutCore, subscribe_replied-KeepsClient}
use centrifuge_go.Client.Core.Refreshes.{refresh_replied-KeepsClient}

abbrev pub IsClosed : Client → Type 0
IsClosed c = c.state ≡ closed

abbrev pub KeepsClosed : (World → World) → Type 0
KeepsClosed g = (w : World) → IsClosed w.client → IsClosed (g w).client

pub on_connect-IsClosed :
    (env : Env) (ctx : Context) (call : Call) (c : Client)
    → IsClosed c
    → IsClosed (on_connect env ctx call c)
unfolding on_connect
on_connect-IsClosed env ctx call c v =
    ground (arith, v, run_call-SameCore env ctx call (some client_closed) c)

pub IsClosed-about : IsAboutCore IsClosed
IsClosed-about = record { same = λ c d s v. s.state ∙ v; calls = on_connect-IsClosed }

begin_attempt-closed :
    (current : Client → Bool) (c : Client)
    → IsClosed c
    → begin_attempt current c ≡ (none, record c { round = c.round + 1 })
unfolding begin_attempt
begin_attempt-closed current c v = ground (arith, v)

start_reconnecting-IsClosed :
    (env : Env) (ctx : Context) (a : Attempt) → KeepsClosed (start_reconnecting env ctx a)
unfolding start_reconnecting start_reconnecting_if run_attempt
start_reconnecting-IsClosed env ctx a w v =
    subst (λ begun. IsClosed (run_attempt env ctx a begun w).client)
      (sym (begin_attempt-closed (λ c. true) w.client v)) v

pub connect-IsClosed :
    (env : Env) (ctx : Context) (a : Attempt) (meanwhile : World → World)
    → KeepsClosed (λ w. (connect env ctx a meanwhile w).0)
unfolding connect start_connecting
connect-IsClosed env ctx a meanwhile w v = ground (arith, v)

pub disconnect-IsClosed : (env : Env) (ctx : Context) → KeepsClosed (λ w. (disconnect env ctx w).0)
unfolding disconnect
disconnect-IsClosed env ctx w v = ground (arith, v)

pub reconnect_timer_fired-IsClosed :
    (env : Env) (ctx : Context) (a : Attempt) → KeepsClosed (reconnect_timer_fired env ctx a)
unfolding reconnect_timer_fired
reconnect_timer_fired-IsClosed env ctx a w v =
    start_reconnecting-IsClosed env ctx a
      (in_client (λ c. record c { reconnect_timer = stop c.reconnect_timer }) w) (ground (arith, v))

pub close-IsClosed :
    (env : Env) (ctx : Context) (meanwhile : World → World) → KeepsClosed (close env ctx meanwhile)
unfolding close
close-IsClosed env ctx meanwhile w v = ground (arith, v)

pub move_to_disconnected_if-IsClosed :
    (env : Env) (ctx : Context) (current : Client → Bool) (code : ℕ) (reason : String)
    → KeepsClosed (λ w. (move_to_disconnected_if env ctx current code reason w).0)
unfolding move_to_disconnected_if
move_to_disconnected_if-IsClosed env ctx current code reason w v = ground (arith, v)

move_to_connecting_from-IsClosed :
    (env : Env) (ctx : Context) (meanwhile : World → World) (t : Option ℕ) (code : ℕ)
    (reason : String)
    → KeepsClosed (move_to_connecting_from env ctx meanwhile t code reason)
unfolding move_to_connecting_from
move_to_connecting_from-IsClosed env ctx meanwhile none code reason w v = ground (arith, v)
move_to_connecting_from-IsClosed env ctx meanwhile (some t) code reason w v = ground (arith, v)

invalidate_connection_state-IsClosed : KeepsClosed invalidate_connection_state
unfolding invalidate_connection_state
invalidate_connection_state-IsClosed w v =
    let c = w.client in
    let w1 = record w {
      client = record c {
        token = if c.has_get_token then "" else c.token;
        refresh_required = c.has_get_token || c.refresh_required;
        server_subs = invalidate_server_subs c.server_subs;
      };
    } in
    ground (arith, v, each_sub-SameCore invalidate_state c.subs w1 invalidate_state-SparesCore)

pub handle_transport_disconnect-IsClosed :
    (env : Env) (ctx : Context) (meanwhile : World → World) (t : Option ℕ)
    (report : Option Disconnect)
    → KeepsClosed (handle_transport_disconnect env ctx meanwhile t report)
unfolding handle_transport_disconnect move_to_disconnected_from
handle_transport_disconnect-IsClosed env ctx meanwhile t report w v =
    let d = or_transport_closed report in
    let w1 =
      if d.code == disconnected_state_invalidated then invalidate_connection_state w else w in
    let v1 : IsClosed w1.client = ground (arith, v, invalidate_connection_state-IsClosed w v) in
    ground (
      arith,
      v,
      move_to_connecting_from-IsClosed env ctx meanwhile t d.code d.reason w1 v1,
      move_to_disconnected_if-IsClosed env ctx (from_transport t) d.code d.reason w1 v1,
    )

pub send_refresh-IsClosed :
    (env : Env) (ctx : Context) (call : ConnectionTokenCall) (generation : ℕ)
    → KeepsClosed (send_refresh env ctx call generation)
unfolding send_refresh
send_refresh-IsClosed env ctx call generation w v = ground (arith, v)

pub refresh_replied-IsClosed :
    (env : Env) (ctx : Context) (handled : World → World) (generation : ℕ) (r : RefreshReply)
    → KeepsClosed (refresh_replied env ctx handled generation r)
unfolding refresh_replied
refresh_replied-IsClosed env ctx handled generation r w v = ground (arith, v)

pub handle_unsolicited-IsClosed :
    (env : Env) (ctx : Context) (handled : World → World) (t : ℕ) (p : Option Push)
    → KeepsClosed (handle_unsolicited env ctx handled t p)
unfolding handle_unsolicited send_delay_ping
handle_unsolicited-IsClosed env ctx handled t none w v =
    let pong : Command = record { id = 0; request = pong_req } in
    ground (arith, v, send_on-SameCore env t pong (send_delay_ping w.client))
handle_unsolicited-IsClosed env ctx handled t (some p) w v = ground (arith, v)

-- A wait of a subscription that keeps its client closed.
abbrev pub KeepsFrameClosed : (Frame → Frame) → Type 0
KeepsFrameClosed op = KeepsClient IsClosed op

-- What happens during the waits of a callback keeps a client closed.
pub record KeepsWaitsClosed (waits : Waits) : Type 0 where
  pub handlers : KeepsClosed waits.meanwhile
  pub frames : KeepsFrameClosed waits.in_frame

delta_failed-IsClosed :
    (env : Env) (ctx : Context) (handled : World → World) (channel : String) (offset : ℕ)
    (e : GoError)
    → KeepsClosed handled
    → KeepsClosed (delta_failed env ctx handled channel offset e)
unfolding delta_failed move_to_disconnected handle_error notify_sync
delta_failed-IsClosed env ctx handled channel offset e h w v =
    let w1 = in_client (handle_error (delta_error channel offset e)) w in
    let v1 : IsClosed w1.client = ground (arith, v) in
    move_to_disconnected_if-IsClosed env ctx (λ c. true) disconnected_bad_protocol "delta error"
      (handled w1) (h w1 v1)

on_sub_delta-IsClosed :
    (env : Env) (ctx : Context) (handled : World → World) (a : ℕ)
    (op : Frame → Frame × Option (ℕ × GoError))
    → KeepsClosed handled
    → KeepsFrameClosed (λ f. (op f).0)
    → KeepsClosed (on_sub_delta env ctx handled a op)
unfolding on_sub_delta
on_sub_delta-IsClosed env ctx handled a op h k w v =
    let f = (op (frame w a)).0 in
    let vf = k (frame w a) v in
    elim (Option-cases (op (frame w a)).1) [
      | inl n ↦ ground (arith, n, vf)
      | inr ((offset, e), n) ↦ ground (
        arith,
        n,
        delta_failed-IsClosed env ctx handled (w.heap a).channel offset e h (put w a f) vf,
      )
    ]

pub connect_answer-IsClosed :
    (env : Env) (ctx : Context) (waits : Waits) (t attempt : ℕ) (token : String)
    (r : Option (Result WireConnect))
    → KeepsClosed (connect_answer env ctx waits t attempt token r)
unfolding connect_answer connect_failed connect_replied
connect_answer-IsClosed env ctx waits t attempt token none w v = v
connect_answer-IsClosed env ctx waits t attempt token (some (err e)) w v = ground (arith, v)
connect_answer-IsClosed env ctx waits t attempt token (some (ok r)) w v = ground (arith, v)

pub subscribe_answer-IsClosed :
    (env : Env) (ctx : Context) (waits : Waits) (a attempt generation : ℕ)
    (r : Option (Result (WireResult SubscribeResult)))
    → KeepsWaitsClosed waits
    → KeepsClosed (subscribe_answer env ctx waits a attempt generation r)
unfolding subscribe_answer
subscribe_answer-IsClosed env ctx waits a attempt generation none k w v = v
subscribe_answer-IsClosed env ctx waits a attempt generation (some (err e)) k w v =
    on_sub_delta-IsClosed env ctx waits.meanwhile a
      (subscribe_replied env waits.in_frame (err e) attempt generation) k.handlers
      (subscribe_replied-KeepsClient IsClosed IsClosed-about env waits.in_frame (err e) attempt
        generation k.frames)
      w v
subscribe_answer-IsClosed env ctx waits a attempt generation (some (ok r)) k w v =
    on_sub_delta-IsClosed env ctx waits.meanwhile a
      (subscribe_replied env waits.in_frame (ok (subscribe_result r)) attempt generation) k.handlers
      (subscribe_replied-KeepsClient IsClosed IsClosed-about env waits.in_frame
        (ok (subscribe_result r)) attempt generation k.frames)
      w v
