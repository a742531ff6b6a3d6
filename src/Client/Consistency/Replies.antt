-- ===== src/Client/Consistency/Replies.antt =====
-- The consistency of a client: frames of the server, and methods of a subscription.
use centrifuge_go.Prelude.{
  ℕ, String, Bool, Option, none, some, arith, inl, inr, Option-cases, nat_key, string_key, lookup,
  int64_pos,
}
use centrifuge_go.Codes.{disconnected_bad_protocol}
use centrifuge_go.Errors.{GoError, delta_error, client_disconnected, client_closed}
use centrifuge_go.Calls.{Context, on_connect}
use centrifuge_go.Effects.{notify, notify_sync}
use centrifuge_go.State.{Client, Env, Call, Command, Frame, pong_req}
use centrifuge_go.Subscription.{handle_publication, handle_join, handle_leave, handle_unsubscribe}
use centrifuge_go.World.{World, in_client, on_sub, put, frame}
use centrifuge_go.Client.{
  handle_error, delta_failed, on_sub_delta, reconnects, push_target, push_to_server_sub,
  push_to_sub, push_to, push_body, handle_push, send_delay_ping, handle_unsolicited, PushBody, Push,
  message_push, unsubscribe_push, publication_push, join_push, leave_push, subscribe_push,
  disconnect_push, other_push, handle_server_publication, handle_server_join, handle_server_leave,
  handle_server_sub, handle_server_unsub,
}
use centrifuge_go.Client.Core.{SparesCore, run_call-SameCore, send_on-SameCore}
use centrifuge_go.Client.Core.Frames.{
  handle_publication-SparesCore, handle_join-SparesCore, handle_leave-SparesCore,
  handle_unsubscribe-SparesCore,
}
use centrifuge_go.Client.Core.Waits.{KeepsClient, IsAboutCore, SparesCore-KeepsClient}
use centrifuge_go.Client.Consistency.{IsConsistent, SameCore-IsConsistent, KeepsConsistent}
use centrifuge_go.Client.Consistency.Attempts.{handle_error-IsConsistent}
use centrifuge_go.Client.Consistency.Reports.{
  move_to_disconnected-IsConsistent, handle_transport_disconnect-IsConsistent,
}

pub on_connect-IsConsistent :
    (env : Env) (ctx : Context) (call : Call) (c : Client)
    → IsConsistent c
    → IsConsistent (on_connect env ctx call c)
unfolding on_connect
on_connect-IsConsistent env ctx call c v = ground (
  arith,
  v,
  run_call-SameCore env ctx call none c,
  run_call-SameCore env ctx call (some client_disconnected) c,
  run_call-SameCore env ctx call (some client_closed) c,
)

pub IsConsistent-about : IsAboutCore IsConsistent
IsConsistent-about = record { same = SameCore-IsConsistent; calls = on_connect-IsConsistent }

-- A wait of a subscription that keeps its client consistent.
abbrev pub KeepsFrame : (Frame → Frame) → Type 0
KeepsFrame op = KeepsClient IsConsistent op

pub on_sub-IsConsistent :
    (a : ℕ) (op : Frame → Frame) → KeepsFrame op → KeepsConsistent (on_sub a op)
unfolding on_sub
on_sub-IsConsistent a op k w v = k (frame w a) v

spared-IsConsistent : (a : ℕ) (op : Frame → Frame) → SparesCore op → KeepsConsistent (on_sub a op)
spared-IsConsistent a op k =
    on_sub-IsConsistent a op (SparesCore-KeepsClient IsConsistent IsConsistent-about op k)

delta_failed-IsConsistent :
    (env : Env) (ctx : Context) (handled : World → World) (channel : String) (offset : ℕ)
    (e : GoError)
    → KeepsConsistent handled
    → KeepsConsistent (delta_failed env ctx handled channel offset e)
unfolding delta_failed
delta_failed-IsConsistent env ctx handled channel offset e h w v =
    let w1 = in_client (handle_error (delta_error channel offset e)) w in
    move_to_disconnected-IsConsistent env ctx disconnected_bad_protocol "delta error" (handled w1)
      (h w1 (handle_error-IsConsistent (delta_error channel offset e) w.client v))

pub on_sub_delta-IsConsistent :
    (env : Env) (ctx : Context) (handled : World → World) (a : ℕ)
    (op : Frame → Frame × Option (ℕ × GoError))
    → KeepsConsistent handled
    → KeepsFrame (λ f. (op f).0)
    → KeepsConsistent (on_sub_delta env ctx handled a op)
unfolding on_sub_delta
on_sub_delta-IsConsistent env ctx handled a op h k w v =
    let f = (op (frame w a)).0 in
    let vf = k (frame w a) v in
    elim (Option-cases (op (frame w a)).1) [
      | inl n ↦ ground (arith, n, vf)
      | inr ((offset, e), n) ↦ ground (
        arith,
        n,
        delta_failed-IsConsistent env ctx handled (w.heap a).channel offset e h (put w a f) vf,
      )
    ]

push_to_server_sub-IsConsistent :
    (channel : String) (compacted : Bool) (body : PushBody) (c : Client)
    → IsConsistent c
    → IsConsistent (push_to_server_sub channel compacted body c)
unfolding push_to_server_sub handle_server_publication handle_server_join handle_server_leave
    handle_server_sub handle_server_unsub notify
push_to_server_sub-IsConsistent channel compacted (unsubscribe_push code reason) c v =
    ground (arith, v)
push_to_server_sub-IsConsistent channel compacted (publication_push p) c v =
    elim (Option-cases (lookup channel c.server_subs)) [
      | inl n ↦ ground (arith, n, v)
      | inr (s, n) ↦ ground (arith, n, v)
    ]
push_to_server_sub-IsConsistent channel compacted (join_push info) c v = ground (arith, v)
push_to_server_sub-IsConsistent channel compacted (leave_push info) c v = ground (arith, v)
push_to_server_sub-IsConsistent channel compacted (subscribe_push p) c v = ground (arith, v)
push_to_server_sub-IsConsistent channel compacted (message_push b) c v = v
push_to_server_sub-IsConsistent channel compacted (disconnect_push code reason) c v = v
push_to_server_sub-IsConsistent channel compacted other_push c v = v

push_to_sub-IsConsistent :
    (env : Env) (ctx : Context) (handled : World → World) (a : ℕ) (body : PushBody)
    → KeepsConsistent handled
    → KeepsConsistent (push_to_sub env ctx handled a body)
unfolding push_to_sub
push_to_sub-IsConsistent env ctx handled a (unsubscribe_push code reason) h w v =
    spared-IsConsistent a (handle_unsubscribe env code reason)
      (handle_unsubscribe-SparesCore env code reason) w v
push_to_sub-IsConsistent env ctx handled a (publication_push p) h w v =
    on_sub_delta-IsConsistent env ctx handled a (handle_publication env p) h
      (SparesCore-KeepsClient IsConsistent IsConsistent-about (λ f. (handle_publication env p f).0)
        (handle_publication-SparesCore env p))
      w v
push_to_sub-IsConsistent env ctx handled a (join_push info) h w v =
    spared-IsConsistent a (handle_join info) (handle_join-SparesCore info) w v
push_to_sub-IsConsistent env ctx handled a (leave_push info) h w v =
    spared-IsConsistent a (handle_leave info) (handle_leave-SparesCore info) w v
push_to_sub-IsConsistent env ctx handled a (subscribe_push p) h w v = v
push_to_sub-IsConsistent env ctx handled a (message_push b) h w v = v
push_to_sub-IsConsistent env ctx handled a (disconnect_push code reason) h w v = v
push_to_sub-IsConsistent env ctx handled a other_push h w v = v

push_to-IsConsistent :
    (env : Env) (ctx : Context) (handled : World → World) (target : Option ℕ) (p : Push)
    → KeepsConsistent handled
    → KeepsConsistent (push_to env ctx handled target p)
unfolding push_to
push_to-IsConsistent env ctx handled none p h w v =
    push_to_server_sub-IsConsistent p.channel (int64_pos p.id) p.body w.client v
push_to-IsConsistent env ctx handled (some a) p h w v =
    push_to_sub-IsConsistent env ctx handled a p.body h w v

push_body-IsConsistent :
    (env : Env) (ctx : Context) (handled : World → World) (t : ℕ) (p : Push) (body : PushBody)
    → KeepsConsistent handled
    → KeepsConsistent (push_body env ctx handled t p body)
unfolding push_body notify_sync
push_body-IsConsistent env ctx handled t p (message_push b) h w v = ground (arith, v)
push_body-IsConsistent env ctx handled t p (disconnect_push code reason) h w v =
    handle_transport_disconnect-IsConsistent env ctx handled (some t)
      (some (record { code = code; reason = reason; reconnect = reconnects code })) h w v
push_body-IsConsistent env ctx handled t p (unsubscribe_push code reason) h w v =
    push_to-IsConsistent env ctx handled (push_target p w.client) p h w v
push_body-IsConsistent env ctx handled t p (publication_push q) h w v =
    push_to-IsConsistent env ctx handled (push_target p w.client) p h w v
push_body-IsConsistent env ctx handled t p (join_push info) h w v =
    push_to-IsConsistent env ctx handled (push_target p w.client) p h w v
push_body-IsConsistent env ctx handled t p (leave_push info) h w v =
    push_to-IsConsistent env ctx handled (push_target p w.client) p h w v
push_body-IsConsistent env ctx handled t p (subscribe_push q) h w v =
    push_to-IsConsistent env ctx handled (push_target p w.client) p h w v
push_body-IsConsistent env ctx handled t p other_push h w v =
    push_to-IsConsistent env ctx handled (push_target p w.client) p h w v

pub handle_unsolicited-IsConsistent :
    (env : Env) (ctx : Context) (handled : World → World) (t : ℕ) (p : Option Push)
    → KeepsConsistent handled
    → KeepsConsistent (handle_unsolicited env ctx handled t p)
unfolding handle_unsolicited handle_push send_delay_ping
handle_unsolicited-IsConsistent env ctx handled t none h w v =
    let pong : Command = record { id = 0; request = pong_req } in
    ground (arith, v, send_on-SameCore env t pong (send_delay_ping w.client))
handle_unsolicited-IsConsistent env ctx handled t (some p) h w v =
    ground (arith, v, push_body-IsConsistent env ctx handled t p p.body h w v)
