-- ===== src/Subscription/Lifecycle/Quiet.antt =====
-- What leaves the queued events alone: sending commands, calls, and resubscribing.
use centrifuge_go.Prelude.{
  ℕ, String, Option, none, some, ◌≡◌, refl, ◌∙◌, arith, nat_key, Option-cases, inl, inr,
}
use centrifuge_go.Errors.{GoError, client_disconnected, client_closed}
use centrifuge_go.Subscription.{run_sub_future}
use centrifuge_go.Calls.{
  Context, on_connect, run_call, run_send, run_request, send_call, finish_call,
}
use centrifuge_go.Requests.{
  next_cmd_id, send_subscribe, send_unsubscribe, unsubscribe_done, send_ignoring_error, send_async,
  send_async_on, send, send_on, async_sent, add_request, reply_result_of,
}
use centrifuge_go.State.{
  Client, Env, Call, Command, Callback, Request, SubscribeRequest, subscribe_req, unsubscribe_req,
  unsubscribe_cb, call_cb,
}

pub record SameEvents (c d : Client) : Type 0 where
  pub events : c.events ≡ d.events
  pub queue_closed : c.queue_closed ≡ d.queue_closed

pub SameEvents-trans : {c d e : Client} → SameEvents c d → SameEvents d e → SameEvents c e
SameEvents-trans p q = record {
  events = p.events ∙ q.events;
  queue_closed = p.queue_closed ∙ q.queue_closed;
}

send_on-SameEvents :
    (env : Env) (t : ℕ) (cmd : Command) (c : Client) → SameEvents (send_on env t cmd c).0 c
unfolding send_on
send_on-SameEvents env t cmd c = ground arith

send-SameEvents : (env : Env) (cmd : Command) (c : Client) → SameEvents (send env cmd c).0 c
unfolding send
send-SameEvents env cmd c = elim (Option-cases c.transport) [
  | inl n ↦ ground (arith, n)
  | inr (t, n) ↦ ground (arith, n, send_on-SameEvents env t cmd c)
]

async_sent-SameEvents : (id : ℕ) (r : Client × Option GoError) → SameEvents (async_sent id r).0 r.0
unfolding async_sent
async_sent-SameEvents id (c, none) = ground arith
async_sent-SameEvents id (c, some e) = ground arith

send_async-SameEvents :
    (env : Env) (cmd : Command) (cb : Callback) (c : Client)
    → SameEvents (send_async env cmd cb c).0 c
unfolding send_async send_async_on add_request
send_async-SameEvents env cmd cb c =
    let c1 = add_request cmd.id (reply_result_of cmd.request) cb c in
    SameEvents-trans (async_sent-SameEvents cmd.id (send env cmd c1)) (
      SameEvents-trans (send-SameEvents env cmd c1) (record { events = refl; queue_closed = refl }))

-- A command with a new id.
request-SameEvents :
    (env : Env) (request : Request) (cb : Callback) (c : Client)
    → SameEvents
        (send_async env
          (record { id = (next_cmd_id c).0; request = request })
          cb
          (next_cmd_id c).1).0
        c
unfolding next_cmd_id
request-SameEvents env request cb c =
    let cmd : Command = record { id = (next_cmd_id c).0; request = request } in
    SameEvents-trans (send_async-SameEvents env cmd cb (next_cmd_id c).1)
      (record { events = refl; queue_closed = refl })

pub send_subscribe-SameEvents :
    (env : Env) (params : SubscribeRequest) (cb : Callback) (c : Client)
    → SameEvents (send_subscribe env params cb c).0 c
unfolding send_subscribe
send_subscribe-SameEvents env params cb c = request-SameEvents env (subscribe_req params) cb c

pub send_ignoring_error-SameEvents :
    (env : Env) (request : Request) (cb : Callback) (c : Client)
    → SameEvents (send_ignoring_error env request cb c) c
unfolding send_ignoring_error
send_ignoring_error-SameEvents env request cb c = request-SameEvents env request cb c

pub send_unsubscribe-SameEvents :
    (env : Env) (channel : String) (c : Client) → SameEvents (send_unsubscribe env channel c) c
unfolding send_unsubscribe unsubscribe_done
send_unsubscribe-SameEvents env channel c =
    let cmd : Command = record { id = (next_cmd_id c).0; request = unsubscribe_req channel } in
    let r = send_async env cmd unsubscribe_cb (next_cmd_id c).1 in
    let same = request-SameEvents env (unsubscribe_req channel) unsubscribe_cb c in
    elim (Option-cases r.1) [
      | inl n ↦ ground (arith, n, same)
      | inr (e, n) ↦ ground (arith, n, same)
    ]

send_call-SameEvents : (env : Env) (call : Call) (c : Client) → SameEvents (send_call env call c) c
unfolding send_call
send_call-SameEvents env call c =
    let cmd : Command = record { id = (next_cmd_id c).0; request = call.request } in
    let same = request-SameEvents env call.request (call_cb call) c in
    elim (Option-cases (send_async env cmd (call_cb call) (next_cmd_id c).1).1) [
      | inl n ↦ ground (arith, n, same)
      | inr (x, n) ↦ ground (arith, n, same)
    ]

run_call-SameEvents :
    (env : Env) (ctx : Context) (call : Call) (e : Option GoError) (c : Client)
    → SameEvents (run_call env ctx call e c) c
unfolding run_call run_send run_request finish_call
run_call-SameEvents env ctx call none c =
    let cmd : Command = record { id = 0; request = call.request } in
    ground (arith, send_call-SameEvents env call c, send-SameEvents env cmd c)
run_call-SameEvents env ctx call (some e) c = ground arith

pub on_connect-SameEvents :
    (env : Env) (ctx : Context) (call : Call) (c : Client)
    → SameEvents (on_connect env ctx call c) c
unfolding on_connect
on_connect-SameEvents env ctx call c = ground (
  arith,
  run_call-SameEvents env ctx call none c,
  run_call-SameEvents env ctx call (some client_disconnected) c,
  run_call-SameEvents env ctx call (some client_closed) c,
)

pub run_sub_future-SameEvents :
    (env : Env) (ctx : Context) (call : Call) (e : Option GoError) (c : Client)
    → SameEvents (run_sub_future env ctx call e c) c
unfolding run_sub_future finish_call
run_sub_future-SameEvents env ctx call e c = elim (Option-cases (ctx call)) [
  | inl n ↦ elim (Option-cases e) [
    | inl m ↦ ground (arith, n, m, on_connect-SameEvents env ctx call c)
    | inr (x, m) ↦ ground (arith, n, m)
  ]
  | inr (x, n) ↦ ground (arith, n)
]
