-- ===== src/Client/Core.antt =====
-- The part of the client that decides about its connection, and what leaves it alone: resolving the
-- calls that wait for the connection, and the methods of subscriptions.
pub mod Frames
pub mod Waits
pub mod Refreshes
pub mod Runs
use centrifuge_go.Prelude.{
  true, ℕ, String, Bool, List, [], ◌∷◌, Option, none, some, ◌≡◌, ◌∙◌, arith, nat_key, inl, inr,
  Option-cases,
}
use centrifuge_go.Errors.{GoError}
use centrifuge_go.Calls.{
  Context, finish_call, send_call, run_send, run_request, run_call, run_calls,
  resolve_connect_futures,
}
use centrifuge_go.Effects.{notify, notify_sync}
use centrifuge_go.PushIds.{update_subscription_push_id}
use centrifuge_go.Requests.{
  next_cmd_id, send_subscribe, send_async, send_async_on, send, send_on, async_sent, add_request,
  reply_result_of,
}
use centrifuge_go.State.{
  Client, Env, Call, Event, Command, Callback, Frame, ReplyResult, call_cb, subscribe_req,
  subscribe_cb, SubscribeRequest, on_subscribing,
}
use centrifuge_go.Subscription.{
  move_to_subscribing_locked, move_to_unsubscribed, move_to_unsubscribed_locked, invalidate_state,
  resubscribe, send_current, continue_sync, set_inflight, subscribe_request,
}
use centrifuge_go.World.{World, on_sub, each_sub, frame}

pub record SameCore (c d : Client) : Type 0 where
  pub state : c.state ≡ d.state
  pub connected : c.connected ≡ d.connected
  pub transport : c.transport ≡ d.transport
  pub connect_attempt : c.connect_attempt ≡ d.connect_attempt
  pub conn_generation : c.conn_generation ≡ d.conn_generation
  pub refresh_timer : c.refresh_timer ≡ d.refresh_timer
  pub connect_futures : c.connect_futures ≡ d.connect_futures
  pub token : c.token ≡ d.token
  pub server_subs : c.server_subs ≡ d.server_subs
  pub subs : c.subs ≡ d.subs

pub SameCore-trans : {c d e : Client} → SameCore c d → SameCore d e → SameCore c e
SameCore-trans p q = record {
  state = p.state ∙ q.state;
  connected = p.connected ∙ q.connected;
  transport = p.transport ∙ q.transport;
  connect_attempt = p.connect_attempt ∙ q.connect_attempt;
  conn_generation = p.conn_generation ∙ q.conn_generation;
  refresh_timer = p.refresh_timer ∙ q.refresh_timer;
  connect_futures = p.connect_futures ∙ q.connect_futures;
  token = p.token ∙ q.token;
  server_subs = p.server_subs ∙ q.server_subs;
  subs = p.subs ∙ q.subs;
}

pub SameCore-refl : (c : Client) → SameCore c c
SameCore-refl c = ground arith

pub notify-SameCore : (b : Bool) (e : Event) (c : Client) → SameCore (notify b e c) c
unfolding notify
notify-SameCore b e c = ground arith

pub notify_sync-SameCore : (b : Bool) (e : Event) (c : Client) → SameCore (notify_sync b e c) c
unfolding notify_sync
notify_sync-SameCore b e c = ground arith

pub send_on-SameCore :
    (env : Env) (t : ℕ) (cmd : Command) (c : Client) → SameCore (send_on env t cmd c).0 c
unfolding send_on
send_on-SameCore env t cmd c = ground arith

send-SameCore : (env : Env) (cmd : Command) (c : Client) → SameCore (send env cmd c).0 c
unfolding send
send-SameCore env cmd c = elim (Option-cases c.transport) [
  | inl n ↦ ground (arith, n)
  | inr (t, n) ↦ ground (arith, n, send_on-SameCore env t cmd c)
]

async_sent-SameCore : (id : ℕ) (r : Client × Option GoError) → SameCore (async_sent id r).0 r.0
unfolding async_sent
async_sent-SameCore id (c, none) = ground arith
async_sent-SameCore id (c, some e) = ground arith

add_request-SameCore :
    (id : ℕ) (result : ReplyResult) (cb : Callback) (c : Client)
    → SameCore (add_request id result cb c) c
unfolding add_request
add_request-SameCore id result cb c = ground arith

pub send_async_on-SameCore :
    (env : Env) (t : Option ℕ) (cmd : Command) (cb : Callback) (c : Client)
    → SameCore (send_async_on env t cmd cb c).0 c
unfolding send_async_on
send_async_on-SameCore env none cmd cb c =
    let c1 = add_request cmd.id (reply_result_of cmd.request) cb c in
    SameCore-trans (async_sent-SameCore cmd.id (send env cmd c1)) (
      SameCore-trans (send-SameCore env cmd c1)
        (add_request-SameCore cmd.id (reply_result_of cmd.request) cb c))
send_async_on-SameCore env (some t) cmd cb c =
    let c1 = add_request cmd.id (reply_result_of cmd.request) cb c in
    SameCore-trans (async_sent-SameCore cmd.id (send_on env t cmd c1)) (
      SameCore-trans (send_on-SameCore env t cmd c1)
        (add_request-SameCore cmd.id (reply_result_of cmd.request) cb c))

pub next_cmd_id-SameCore : (c : Client) → SameCore (next_cmd_id c).1 c
unfolding next_cmd_id
next_cmd_id-SameCore c = ground arith

send_call-SameCore : (env : Env) (call : Call) (c : Client) → SameCore (send_call env call c) c
unfolding send_call send_async finish_call
send_call-SameCore env call c =
    let c1 = (next_cmd_id c).1 in
    let cmd : Command = record { id = (next_cmd_id c).0; request = call.request } in
    let same =
      SameCore-trans (send_async_on-SameCore env none cmd (call_cb call) c1)
        (next_cmd_id-SameCore c) in
    elim (Option-cases (send_async_on env none cmd (call_cb call) c1).1) [
      | inl n ↦ ground (arith, n, same)
      | inr (x, n) ↦ ground (arith, n, same)
    ]

pub run_call-SameCore :
    (env : Env) (ctx : Context) (call : Call) (e : Option GoError) (c : Client)
    → SameCore (run_call env ctx call e c) c
unfolding run_call run_send run_request finish_call
run_call-SameCore env ctx call none c =
    let cmd : Command = record { id = 0; request = call.request } in
    ground (arith, send_call-SameCore env call c, send-SameCore env cmd c)
run_call-SameCore env ctx call (some e) c = ground arith

run_calls-SameCore :
    (env : Env) (ctx : Context) (e : Option GoError) (calls : List (ℕ × Call)) (c : Client)
    → SameCore (run_calls env ctx e calls c) c
unfolding run_calls
run_calls-SameCore env ctx e [] c = SameCore-refl c
run_calls-SameCore env ctx e ((id, call) ∷ calls) c =
    SameCore-trans (run_calls-SameCore env ctx e calls (run_call env ctx call e c))
      (run_call-SameCore env ctx call e c)

-- Resolving the futures empties them and keeps the rest of the core.
pub resolve_connect_futures-SameCore :
    (env : Env) (ctx : Context) (e : Option GoError) (c : Client)
    → SameCore (resolve_connect_futures env ctx e c) (record c { connect_futures = [] })
unfolding resolve_connect_futures
resolve_connect_futures-SameCore env ctx e c =
    ground (arith, run_calls-SameCore env ctx e c.connect_futures c)

-- A method of a subscription that leaves the core of its client alone.
abbrev pub SparesCore : (Frame → Frame) → Type 0
SparesCore op = (f : Frame) → SameCore (op f).client f.client

pub move_to_subscribing_locked-SparesCore :
    (code : ℕ) (reason : String) → SparesCore (move_to_subscribing_locked code reason)
unfolding move_to_subscribing_locked
move_to_subscribing_locked-SparesCore code reason f = ground (
  arith,
  notify-SameCore f.sub.handlers.on_subscribing (on_subscribing f.sub.channel code reason) f.client,
)

pub move_to_unsubscribed-SparesCore :
    (code : ℕ) (reason : String) → SparesCore (move_to_unsubscribed code reason)
unfolding move_to_unsubscribed move_to_unsubscribed_locked notify update_subscription_push_id
move_to_unsubscribed-SparesCore code reason f = ground arith

pub invalidate_state-SparesCore : SparesCore invalidate_state
unfolding invalidate_state update_subscription_push_id
invalidate_state-SparesCore f = ground arith

send_subscribe-SameCore :
    (env : Env) (params : SubscribeRequest) (cb : Callback) (c : Client)
    → SameCore (send_subscribe env params cb c).0 c
unfolding send_subscribe send_async
send_subscribe-SameCore env params cb c =
    let cmd : Command = record { id = (next_cmd_id c).0; request = subscribe_req params } in
    SameCore-trans (send_async_on-SameCore env none cmd cb (next_cmd_id c).1)
      (next_cmd_id-SameCore c)

pub send_current-SparesCore :
    (env : Env) (token : String) (attempt invalidations : ℕ)
    → SparesCore (send_current env token attempt invalidations)
unfolding send_current
send_current-SparesCore env token attempt invalidations f = ground (
  arith,
  send_subscribe-SameCore env (subscribe_request token f.sub)
      (subscribe_cb f.sub.address attempt f.client.conn_generation) f.client,
)

pub resubscribe-SparesCore : (env : Env) → SparesCore (resubscribe env)
unfolding resubscribe continue_sync
resubscribe-SparesCore env f = ground (
  arith,
  send_current-SparesCore env f.sub.token f.sub.subscribe_attempt f.sub.invalidations
      (set_inflight true f),
)

pub each_sub-SameCore :
    (op : Frame → Frame) (subs : List (String × ℕ)) (w : World)
    → SparesCore op
    → SameCore (each_sub op subs w).client w.client
unfolding each_sub on_sub
each_sub-SameCore op [] w k = SameCore-refl w.client
each_sub-SameCore op ((channel, a) ∷ subs) w k =
    SameCore-trans (each_sub-SameCore op subs (on_sub a op w) k) (k (frame w a))
