-- ===== src/Client/Closed/Callbacks.antt =====
-- A closed client: the callbacks of the request table, the futures and the registry.
use centrifuge_go.Prelude.{
  ℕ, String, Bool, List, [], ◌∷◌, Option, none, some, delete, arith, inl, inr, Option-cases,
  nat_key, string_key, lookup, insert,
}
use centrifuge_go.Codes.{disconnected_bad_protocol}
use centrifuge_go.Errors.{GoError, Result, err, timeout, client_disconnected}
use centrifuge_go.Calls.{Context, finish_call, connect_future_timeout}
use centrifuge_go.Protocol.{WirePublication}
use centrifuge_go.Requests.{pop_request, unsubscribe_done}
use centrifuge_go.State.{
  Client, Env, Call, Callback, Frame, SubState, connect_cb, subscribe_cb, unsubscribe_cb,
  refresh_cb, sub_refresh_cb, call_cb,
}
use centrifuge_go.Subscription.{subscribe_replied, invalidate_state}
use centrifuge_go.Subscription
use centrifuge_go.World.{World, on_sub, frame}
use centrifuge_go.Client.{
  finish_replied, call_result, move_to_disconnected_from, from_transport, Reply, Waits, answer,
  error_of, refresh_answer, run_callback, fail_callback, handle_reply, request_timeout,
  refresh_failed, deliver_server, adopt_server_position, new_subscription, remove_subscription,
  set_token,
}
use centrifuge_go.Client.Core.{run_call-SameCore}
use centrifuge_go.Client.Core.Waits.{}
use centrifuge_go.Client.Core.Refreshes.{refresh_replied-KeepsClient}
use centrifuge_go.Client.Closed.{
  IsClosed, IsClosed-about, KeepsClosed, KeepsWaitsClosed, KeepsFrameClosed,
  connect_answer-IsClosed, subscribe_answer-IsClosed, refresh_replied-IsClosed,
  move_to_disconnected_if-IsClosed,
}

pub on_sub-IsClosed : (a : ℕ) (op : Frame → Frame) → KeepsFrameClosed op → KeepsClosed (on_sub a op)
unfolding on_sub
on_sub-IsClosed a op k w v = k (frame w a) v

move_to_disconnected_from-IsClosed :
    (env : Env) (ctx : Context) (t : Option ℕ) (code : ℕ) (reason : String)
    → KeepsClosed (move_to_disconnected_from env ctx t code reason)
unfolding move_to_disconnected_from
move_to_disconnected_from-IsClosed env ctx t code reason w v =
    move_to_disconnected_if-IsClosed env ctx (from_transport t) code reason w v

sub_refresh-IsClosed :
    (env : Env) (waits : Waits) (a session invalidations : ℕ) (r : Result (Bool × ℕ))
    → KeepsWaitsClosed waits
    → KeepsClosed
        (on_sub a (Subscription.refresh_replied env waits.in_frame r session invalidations))
sub_refresh-IsClosed env waits a session invalidations r k =
    on_sub-IsClosed a (Subscription.refresh_replied env waits.in_frame r session invalidations) (
      refresh_replied-KeepsClient IsClosed IsClosed-about env waits.in_frame r session invalidations
        k.frames)

unsubscribe_done-IsClosed :
    (e : Option GoError) (c : Client) → IsClosed c → IsClosed (unsubscribe_done e c)
unfolding unsubscribe_done
unsubscribe_done-IsClosed none c v = v
unsubscribe_done-IsClosed (some e) c v = ground (arith, v)

finish_call-IsClosed :
    (call : Call) (e : Option GoError) (c : Client) → IsClosed c → IsClosed (finish_call call e c)
unfolding finish_call
finish_call-IsClosed call e c v = ground (arith, v)

finish_replied-IsClosed :
    (call : Call) (r : Reply) (c : Client) → IsClosed c → IsClosed (finish_replied call r c)
unfolding finish_replied
finish_replied-IsClosed call r c v =
    elim (Option-cases (answer (call_result call.request r) r.error)) [
      | inl n ↦ ground (arith, n, v)
      | inr (x, n) ↦ ground (arith, n, v)
    ]

run_callback-IsClosed :
    (env : Env) (ctx : Context) (waits : Waits) (cb : Callback) (r : Reply)
    → KeepsWaitsClosed waits
    → KeepsClosed (run_callback env ctx waits cb r)
unfolding run_callback
run_callback-IsClosed env ctx waits (connect_cb t attempt token) r k w v =
    connect_answer-IsClosed env ctx waits t attempt token (answer r.connect r.error) w v
run_callback-IsClosed env ctx waits (subscribe_cb a attempt generation) r k w v =
    subscribe_answer-IsClosed env ctx waits a attempt generation (answer r.subscribe r.error) k w v
run_callback-IsClosed env ctx waits unsubscribe_cb r k w v =
    unsubscribe_done-IsClosed (error_of r.error) w.client v
run_callback-IsClosed env ctx waits (refresh_cb generation) r k w v =
    elim (Option-cases (refresh_answer r.refresh r.error)) [
      | inl n ↦ ground (arith, n, v)
      | inr (x, n) ↦
          ground (arith, n, refresh_replied-IsClosed env ctx waits.meanwhile generation x w v)
    ]
run_callback-IsClosed env ctx waits (sub_refresh_cb a session invalidations) r k w v =
    elim (Option-cases (answer r.sub_refresh r.error)) [
      | inl n ↦ ground (arith, n, v)
      | inr (x, n) ↦
          ground (arith, n, sub_refresh-IsClosed env waits a session invalidations x k w v)
    ]
run_callback-IsClosed env ctx waits (call_cb call) r k w v =
    finish_replied-IsClosed call r w.client v

pub fail_callback-IsClosed :
    (env : Env) (ctx : Context) (waits : Waits) (cb : Callback) (e : GoError)
    → KeepsWaitsClosed waits
    → KeepsClosed (fail_callback env ctx waits cb e)
unfolding fail_callback
fail_callback-IsClosed env ctx waits (connect_cb t attempt token) e k w v =
    connect_answer-IsClosed env ctx waits t attempt token (some (err e)) w v
fail_callback-IsClosed env ctx waits (subscribe_cb a attempt generation) e k w v =
    subscribe_answer-IsClosed env ctx waits a attempt generation (some (err e)) k w v
fail_callback-IsClosed env ctx waits unsubscribe_cb e k w v =
    unsubscribe_done-IsClosed (some e) w.client v
fail_callback-IsClosed env ctx waits (refresh_cb generation) e k w v =
    refresh_replied-IsClosed env ctx waits.meanwhile generation (refresh_failed e) w v
fail_callback-IsClosed env ctx waits (sub_refresh_cb a session invalidations) e k w v =
    sub_refresh-IsClosed env waits a session invalidations (err e) k w v
fail_callback-IsClosed env ctx waits (call_cb call) e k w v =
    finish_call-IsClosed call (some e) w.client v

popped-IsClosed : (id : ℕ) (c : Client) → IsClosed c → IsClosed (pop_request id c).1
unfolding pop_request
popped-IsClosed id c v = ground (arith, v)

pub handle_reply-IsClosed :
    (env : Env) (ctx : Context) (waits : Waits) (t id : ℕ) (r : Reply)
    → KeepsWaitsClosed waits
    → KeepsClosed (handle_reply env ctx waits t id r)
unfolding handle_reply
handle_reply-IsClosed env ctx waits t id r k w v =
    let w1 = record w { client = (pop_request id w.client).1 } in
    let v1 = popped-IsClosed id w.client v in
    let w2 =
      move_to_disconnected_from env ctx (some t) disconnected_bad_protocol "malformed reply" w1 in
    let v2 =
      move_to_disconnected_from-IsClosed env ctx (some t) disconnected_bad_protocol
        "malformed reply" w1 v1 in
    elim (Option-cases (pop_request id w.client).0) [
      | inl n ↦ ground (arith, n, v1)
      | inr (p, n) ↦ ground (
        arith,
        n,
        fail_callback-IsClosed env ctx waits p.cb client_disconnected k w2 v2,
        run_callback-IsClosed env ctx waits p.cb r k w1 v1,
      )
    ]

pub request_timeout-IsClosed :
    (env : Env) (ctx : Context) (waits : Waits) (e : GoError) (id : ℕ)
    → KeepsWaitsClosed waits
    → KeepsClosed (request_timeout env ctx waits e id)
unfolding request_timeout
request_timeout-IsClosed env ctx waits e id k w v =
    let w1 = record w { client = (pop_request id w.client).1 } in
    let v1 = popped-IsClosed id w.client v in
    elim (Option-cases (pop_request id w.client).0) [
      | inl n ↦ ground (arith, n, v1)
      | inr (p, n) ↦ ground (arith, n, fail_callback-IsClosed env ctx waits p.cb e k w1 v1)
    ]

pub connect_future_timeout-IsClosed :
    (env : Env) (ctx : Context) (id : ℕ) (c : Client)
    → IsClosed c
    → IsClosed (connect_future_timeout env ctx id c)
unfolding connect_future_timeout
connect_future_timeout-IsClosed env ctx id c v =
    let c1 = record c { connect_futures = delete id c.connect_futures } in
    elim (Option-cases (lookup id c.connect_futures)) [
      | inl n ↦ ground (arith, n, v)
      | inr (call, n) ↦ ground (arith, n, v, run_call-SameCore env ctx call (some timeout) c1)
    ]

pub deliver_server-IsClosed :
    (handle : WirePublication → World → World) (attempt : ℕ) (channel : String)
    (ps : List WirePublication)
    → ((p : WirePublication) → KeepsClosed (handle p))
    → KeepsClosed (deliver_server handle attempt channel ps)
unfolding deliver_server
deliver_server-IsClosed handle attempt channel [] k w v = v
deliver_server-IsClosed handle attempt channel (p ∷ ps) k w v =
    elim (Option-cases (lookup channel w.client.server_subs)) [
      | inl n ↦ ground (arith, n, v)
      | inr (s, n) ↦
          let c = w.client in
          let w1 = record w {
            client = record c {
              server_subs = insert channel (adopt_server_position p s) c.server_subs;
            };
          } in
          let v1 : IsClosed w1.client = ground (arith, v) in
          ground (
            arith,
            n,
            v,
            deliver_server-IsClosed handle attempt channel ps k w1 v1,
            deliver_server-IsClosed handle attempt channel ps k (handle p w1) (k p w1 v1),
          )
    ]

pub registry-IsClosed :
    (channel token : String) (conflict : Bool) (a : ℕ) (state : SubState) (c : Client)
    → IsClosed c
    → IsClosed (new_subscription channel conflict a c).0
      × IsClosed (remove_subscription channel a state c).0
      × IsClosed (set_token token c)
unfolding new_subscription remove_subscription set_token
registry-IsClosed channel token conflict a state c v = elim (Option-cases (lookup channel c.subs)) [
  | inl n ↦ ground (arith, n, v)
  | inr (b, n) ↦ ground (arith, n, v)
]
