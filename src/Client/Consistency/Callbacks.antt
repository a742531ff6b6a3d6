-- ===== src/Client/Consistency/Callbacks.antt =====
-- The consistency of a client: the callbacks of the request table.
use centrifuge_go.Prelude.{
  ℕ, String, Bool, Option, none, some, arith, inl, inr, Option-cases, nat_key, string_key,
}
use centrifuge_go.Codes.{disconnected_bad_protocol}
use centrifuge_go.Errors.{GoError, Result, ok, err, client_disconnected}
use centrifuge_go.Calls.{Context, finish_call}
use centrifuge_go.Protocol.{SubscribeResult}
use centrifuge_go.Requests.{pop_request, unsubscribe_done}
use centrifuge_go.State.{
  Client, Env, Call, Callback, connect_cb, subscribe_cb, unsubscribe_cb, refresh_cb, sub_refresh_cb,
  call_cb,
}
use centrifuge_go.Subscription.{
  subscribe_replied, handle_publication, handle_join, handle_leave, handle_unsubscribe,
}
use centrifuge_go.Subscription
use centrifuge_go.World.{on_sub}
use centrifuge_go.Client.{
  finish_replied, call_result, Reply, Waits, WireConnect, WireResult, connect_answer,
  subscribe_answer, refresh_answer, answer, error_of, run_callback, fail_callback, handle_reply,
  request_timeout, connect_result, subscribe_result, refresh_failed, move_to_disconnected_from,
}
use centrifuge_go.Client.Core.Waits.{subscribe_replied-KeepsClient}
use centrifuge_go.Client.Core.Refreshes.{refresh_replied-KeepsClient}
use centrifuge_go.Client.Connecting.{connect_replied-IsConsistent}
use centrifuge_go.Client.Consistency.{IsConsistent, KeepsConsistent}
use centrifuge_go.Client.Consistency.Connects.{connect_failed-IsConsistent}
use centrifuge_go.Client.Consistency.Reports.{
  move_to_disconnected_from-IsConsistent, refresh_replied-IsConsistent,
}
use centrifuge_go.Client.Consistency.Replies.{
  IsConsistent-about, KeepsFrame, on_sub-IsConsistent, on_sub_delta-IsConsistent,
}

-- What happens during the waits of a callback keeps a client consistent.
pub record KeepsWaits (waits : Waits) : Type 0 where
  pub handlers : KeepsConsistent waits.meanwhile
  pub frames : KeepsFrame waits.in_frame
  pub closes : KeepsConsistent waits.closing

connect_answer-IsConsistent :
    (env : Env) (ctx : Context) (waits : Waits) (t attempt : ℕ) (token : String)
    (r : Option (Result WireConnect))
    → KeepsWaits waits
    → KeepsConsistent (connect_answer env ctx waits t attempt token r)
unfolding connect_answer
connect_answer-IsConsistent env ctx waits t attempt token none k w v = v
connect_answer-IsConsistent env ctx waits t attempt token (some (err e)) k w v =
    connect_failed-IsConsistent env ctx waits.meanwhile waits.closing t attempt token e k.handlers
      k.closes w v
connect_answer-IsConsistent env ctx waits t attempt token (some (ok r)) k w v =
    connect_replied-IsConsistent env ctx waits.meanwhile (connect_result r) t attempt w k.handlers v

subscribe_answer-IsConsistent :
    (env : Env) (ctx : Context) (waits : Waits) (a attempt generation : ℕ)
    (r : Option (Result (WireResult SubscribeResult)))
    → KeepsWaits waits
    → KeepsConsistent (subscribe_answer env ctx waits a attempt generation r)
unfolding subscribe_answer
subscribe_answer-IsConsistent env ctx waits a attempt generation none k w v = v
subscribe_answer-IsConsistent env ctx waits a attempt generation (some (err e)) k w v =
    on_sub_delta-IsConsistent env ctx waits.meanwhile a
      (subscribe_replied env waits.in_frame (err e) attempt generation) k.handlers
      (subscribe_replied-KeepsClient IsConsistent IsConsistent-about env waits.in_frame (err e)
        attempt generation k.frames)
      w v
subscribe_answer-IsConsistent env ctx waits a attempt generation (some (ok r)) k w v =
    on_sub_delta-IsConsistent env ctx waits.meanwhile a
      (subscribe_replied env waits.in_frame (ok (subscribe_result r)) attempt generation) k.handlers
      (subscribe_replied-KeepsClient IsConsistent IsConsistent-about env waits.in_frame
        (ok (subscribe_result r)) attempt generation k.frames)
      w v

sub_refresh-IsConsistent :
    (env : Env) (waits : Waits) (a session invalidations : ℕ) (r : Result (Bool × ℕ))
    → KeepsWaits waits
    → KeepsConsistent
        (on_sub a (Subscription.refresh_replied env waits.in_frame r session invalidations))
sub_refresh-IsConsistent env waits a session invalidations r k =
    on_sub-IsConsistent a (Subscription.refresh_replied env waits.in_frame r session invalidations)
      (refresh_replied-KeepsClient IsConsistent IsConsistent-about env waits.in_frame r session
        invalidations k.frames)

unsubscribe_done-IsConsistent :
    (e : Option GoError) (c : Client) → IsConsistent c → IsConsistent (unsubscribe_done e c)
unfolding unsubscribe_done
unsubscribe_done-IsConsistent none c v = v
unsubscribe_done-IsConsistent (some e) c v = ground (arith, v)

finish_call-IsConsistent :
    (call : Call) (e : Option GoError) (c : Client)
    → IsConsistent c
    → IsConsistent (finish_call call e c)
unfolding finish_call
finish_call-IsConsistent call e c v = ground (arith, v)

finish_replied-IsConsistent :
    (call : Call) (r : Reply) (c : Client) → IsConsistent c → IsConsistent (finish_replied call r c)
unfolding finish_replied
finish_replied-IsConsistent call r c v =
    elim (Option-cases (answer (call_result call.request r) r.error)) [
      | inl n ↦ ground (arith, n, v)
      | inr (x, n) ↦ ground (arith, n, v)
    ]

run_callback-IsConsistent :
    (env : Env) (ctx : Context) (waits : Waits) (cb : Callback) (r : Reply)
    → KeepsWaits waits
    → KeepsConsistent (run_callback env ctx waits cb r)
unfolding run_callback
run_callback-IsConsistent env ctx waits (connect_cb t attempt token) r k w v =
    connect_answer-IsConsistent env ctx waits t attempt token (answer r.connect r.error) k w v
run_callback-IsConsistent env ctx waits (subscribe_cb a attempt generation) r k w v =
    subscribe_answer-IsConsistent env ctx waits a attempt generation (answer r.subscribe r.error) k
      w v
run_callback-IsConsistent env ctx waits unsubscribe_cb r k w v =
    unsubscribe_done-IsConsistent (error_of r.error) w.client v
run_callback-IsConsistent env ctx waits (refresh_cb generation) r k w v =
    elim (Option-cases (refresh_answer r.refresh r.error)) [
      | inl n ↦ ground (arith, n, v)
      | inr (x, n) ↦ ground (
        arith,
        n,
        refresh_replied-IsConsistent env ctx waits.meanwhile generation x k.handlers w v,
      )
    ]
run_callback-IsConsistent env ctx waits (sub_refresh_cb a session invalidations) r k w v =
    elim (Option-cases (answer r.sub_refresh r.error)) [
      | inl n ↦ ground (arith, n, v)
      | inr (x, n) ↦
          ground (arith, n, sub_refresh-IsConsistent env waits a session invalidations x k w v)
    ]
run_callback-IsConsistent env ctx waits (call_cb call) r k w v =
    finish_replied-IsConsistent call r w.client v

pub fail_callback-IsConsistent :
    (env : Env) (ctx : Context) (waits : Waits) (cb : Callback) (e : GoError)
    → KeepsWaits waits
    → KeepsConsistent (fail_callback env ctx waits cb e)
unfolding fail_callback
fail_callback-IsConsistent env ctx waits (connect_cb t attempt token) e k w v =
    connect_answer-IsConsistent env ctx waits t attempt token (some (err e)) k w v
fail_callback-IsConsistent env ctx waits (subscribe_cb a attempt generation) e k w v =
    subscribe_answer-IsConsistent env ctx waits a attempt generation (some (err e)) k w v
fail_callback-IsConsistent env ctx waits unsubscribe_cb e k w v =
    unsubscribe_done-IsConsistent (some e) w.client v
fail_callback-IsConsistent env ctx waits (refresh_cb generation) e k w v =
    refresh_replied-IsConsistent env ctx waits.meanwhile generation (refresh_failed e) k.handlers w
      v
fail_callback-IsConsistent env ctx waits (sub_refresh_cb a session invalidations) e k w v =
    sub_refresh-IsConsistent env waits a session invalidations (err e) k w v
fail_callback-IsConsistent env ctx waits (call_cb call) e k w v =
    finish_call-IsConsistent call (some e) w.client v

popped-IsConsistent : (id : ℕ) (c : Client) → IsConsistent c → IsConsistent (pop_request id c).1
unfolding pop_request
popped-IsConsistent id c v = ground (arith, v)

pub handle_reply-IsConsistent :
    (env : Env) (ctx : Context) (waits : Waits) (t id : ℕ) (r : Reply)
    → KeepsWaits waits
    → KeepsConsistent (handle_reply env ctx waits t id r)
unfolding handle_reply
handle_reply-IsConsistent env ctx waits t id r k w v =
    let w1 = record w { client = (pop_request id w.client).1 } in
    let v1 = popped-IsConsistent id w.client v in
    let w2 =
      move_to_disconnected_from env ctx (some t) disconnected_bad_protocol "malformed reply" w1 in
    let v2 =
      move_to_disconnected_from-IsConsistent env ctx (some t) disconnected_bad_protocol
        "malformed reply" w1 v1 in
    elim (Option-cases (pop_request id w.client).0) [
      | inl n ↦ ground (arith, n, v1)
      | inr (p, n) ↦ ground (
        arith,
        n,
        fail_callback-IsConsistent env ctx waits p.cb client_disconnected k w2 v2,
        run_callback-IsConsistent env ctx waits p.cb r k w1 v1,
      )
    ]

pub request_timeout-IsConsistent :
    (env : Env) (ctx : Context) (waits : Waits) (e : GoError) (id : ℕ)
    → KeepsWaits waits
    → KeepsConsistent (request_timeout env ctx waits e id)
unfolding request_timeout
request_timeout-IsConsistent env ctx waits e id k w v =
    let w1 = record w { client = (pop_request id w.client).1 } in
    let v1 = popped-IsConsistent id w.client v in
    elim (Option-cases (pop_request id w.client).0) [
      | inl n ↦ ground (arith, n, v1)
      | inr (p, n) ↦ ground (arith, n, fail_callback-IsConsistent env ctx waits p.cb e k w1 v1)
    ]
