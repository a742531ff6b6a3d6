-- ===== src/Client/Core/Frames.antt =====
-- The methods of a subscription that run no handler, and the core of its client.
use centrifuge_go.Prelude.{
  ℕ, String, Bool, true, List, Option, none, some, arith, inl, inr, Option-cases, nat_key,
  if◌then◌else◌, ◌==◌,
}
use centrifuge_go.Errors.{GoError, ServerError, Result-cases, subscription_unsubscribed}
use centrifuge_go.Codes.{
  subscribing_subscribe_called, unsubscribed_state_invalidated, unsubscribed_unsubscribe_called,
}
use centrifuge_go.Calls.{finish_call}
use centrifuge_go.Effects.{notify}
use centrifuge_go.PushIds.{update_subscription_push_id}
use centrifuge_go.Protocol.{WireInfo, WirePublication, Publication, SubscribeResult, pub_from_proto}
use centrifuge_go.Requests.{
  next_cmd_id, send_unsubscribe, send_ignoring_error, send_async, unsubscribe_done,
}
use centrifuge_go.State.{
  Client, Env, Call, Callback, Command, Request, Frame, unsubscribe_req, unsubscribe_cb,
  subscribing, on_sub_error, stop,
}
use centrifuge_go.Subscription.{
  move_to_subscribing_locked, move_to_unsubscribed_locked, invalidate_state,
  send_unsubscribe_locked, unsubscribe, unsubscribe_with, subscribe, queue_subscribing_locked,
  schedule_resubscribe, lock_current_attempt, lock_current_subscribe, emit_error,
  finish_subscribe_error, become_subscribed, move_to_subscribed, handle_publication, handle_join,
  handle_leave, handle_unsubscribe, on_subscribe, resubscribe_timer_fired, rearm,
  unsubscribe_if_refresh_current, apply_recovered, Applied-cases, apply_delta_locked,
}
use centrifuge_go.Client.Core.{
  SameCore, SameCore-trans, SparesCore, notify_sync-SameCore, send_async_on-SameCore,
  next_cmd_id-SameCore, resubscribe-SparesCore, move_to_subscribing_locked-SparesCore,
  invalidate_state-SparesCore,
}

request-SameCore :
    (env : Env) (request : Request) (cb : Callback) (c : Client)
    → SameCore
        (send_async env
          (record { id = (next_cmd_id c).0; request = request })
          cb
          (next_cmd_id c).1).0
        c
unfolding send_async
request-SameCore env request cb c =
    SameCore-trans
      (send_async_on-SameCore env none (record { id = (next_cmd_id c).0; request = request }) cb
        (next_cmd_id c).1)
      (next_cmd_id-SameCore c)

pub send_ignoring_error-SameCore :
    (env : Env) (request : Request) (cb : Callback) (c : Client)
    → SameCore (send_ignoring_error env request cb c) c
unfolding send_ignoring_error
send_ignoring_error-SameCore env request cb c = request-SameCore env request cb c

send_unsubscribe-SameCore :
    (env : Env) (channel : String) (c : Client) → SameCore (send_unsubscribe env channel c) c
unfolding send_unsubscribe unsubscribe_done
send_unsubscribe-SameCore env channel c =
    let cmd : Command = record { id = (next_cmd_id c).0; request = unsubscribe_req channel } in
    let same = request-SameCore env (unsubscribe_req channel) unsubscribe_cb c in
    elim (Option-cases (send_async env cmd unsubscribe_cb (next_cmd_id c).1).1) [
      | inl n ↦ ground (arith, n, same)
      | inr (e, n) ↦ ground (arith, n, same)
    ]

pub finish_call-SameCore :
    (call : Call) (e : Option GoError) (c : Client) → SameCore (finish_call call e c) c
unfolding finish_call
finish_call-SameCore call e c = ground arith

pub send_unsubscribe_locked-SparesCore : (env : Env) → SparesCore (send_unsubscribe_locked env)
unfolding send_unsubscribe_locked
send_unsubscribe_locked-SparesCore env f =
    ground (arith, send_unsubscribe-SameCore env f.sub.channel f.client)

pub move_to_unsubscribed_locked-SparesCore :
    (code : ℕ) (reason : String) (e : GoError)
    → SparesCore (move_to_unsubscribed_locked code reason e)
unfolding move_to_unsubscribed_locked notify update_subscription_push_id
move_to_unsubscribed_locked-SparesCore code reason e f = ground arith

pub unsubscribe_with-SparesCore :
    (env : Env) (code : ℕ) (reason : String) (send_it : Bool)
    → SparesCore (unsubscribe_with env code reason send_it)
unfolding unsubscribe_with
unsubscribe_with-SparesCore env code reason send_it f = ground (
  arith,
  send_unsubscribe_locked-SparesCore env f,
  move_to_unsubscribed_locked-SparesCore code reason subscription_unsubscribed f,
  move_to_unsubscribed_locked-SparesCore code reason subscription_unsubscribed
      (send_unsubscribe_locked env f),
)

pub unsubscribe-SparesCore : (env : Env) → SparesCore (λ f. (unsubscribe env f).0)
unfolding unsubscribe
unsubscribe-SparesCore env f = ground (
  arith,
  unsubscribe_with-SparesCore env unsubscribed_unsubscribe_called "unsubscribe called" true f,
)

queue_subscribing_locked-SparesCore :
    (code : ℕ) (reason : String) → SparesCore (queue_subscribing_locked code reason)
unfolding queue_subscribing_locked notify
queue_subscribing_locked-SparesCore code reason f = ground arith

pub subscribe-SparesCore :
    (env : Env) (registered : Bool) → SparesCore (λ f. (subscribe env registered f).0)
unfolding subscribe
subscribe-SparesCore env registered f =
    let f0 : Frame = record f { sub = record (f.sub) { state = subscribing } } in
    let f1 = queue_subscribing_locked subscribing_subscribe_called "subscribe called" f0 in
    ground (
      arith,
      queue_subscribing_locked-SparesCore subscribing_subscribe_called "subscribe called" f0,
      resubscribe-SparesCore env f1,
    )

schedule_resubscribe-SparesCore : (env : Env) → SparesCore (schedule_resubscribe env)
unfolding schedule_resubscribe
schedule_resubscribe-SparesCore env f = ground arith

pub lock_current_attempt-SparesCore :
    (env : Env) (attempt : ℕ) → SparesCore (λ f. (lock_current_attempt env attempt f).1)
unfolding lock_current_attempt
lock_current_attempt-SparesCore env attempt f = ground (arith, resubscribe-SparesCore env f)

pub lock_current_subscribe-SparesCore :
    (env : Env) (attempt generation : ℕ)
    → SparesCore (λ f. (lock_current_subscribe env attempt generation f).1)
unfolding lock_current_subscribe
lock_current_subscribe-SparesCore env attempt generation f =
    ground (arith, resubscribe-SparesCore env f, lock_current_attempt-SparesCore env attempt f)

pub emit_error-SparesCore : (e : GoError) → SparesCore (emit_error e)
unfolding emit_error
emit_error-SparesCore e f =
    notify_sync-SameCore f.sub.handlers.on_error (on_sub_error f.sub.channel e) f.client

pub finish_subscribe_error-SparesCore :
    (env : Env) (e : GoError) (se : Option ServerError)
    → SparesCore (finish_subscribe_error env e se)
unfolding finish_subscribe_error schedule_resubscribe
finish_subscribe_error-SparesCore env e none f = ground arith
finish_subscribe_error-SparesCore env e (some se) f =
    ground (arith, move_to_unsubscribed_locked-SparesCore se.code se.message e f)

become_subscribed-SparesCore :
    (r : SubscribeResult) (pairs : List (WirePublication × Publication))
    → SparesCore (become_subscribed r pairs)
unfolding become_subscribed update_subscription_push_id notify
become_subscribed-SparesCore r pairs f = ground arith

pub move_to_subscribed-SparesCore :
    (env : Env) (r : SubscribeResult) (generation attempt : ℕ)
    → SparesCore (λ f. (move_to_subscribed env r generation attempt f).0)
unfolding move_to_subscribed
move_to_subscribed-SparesCore env r generation attempt f =
    let ready = record (f.sub) { delta_negotiated = r.delta } in
    elim (Applied-cases (apply_recovered env f.client.protocol_type r.publications ready)) [
      | inl (s, pairs, e) ↦ ground (
        arith,
        e,
        resubscribe-SparesCore env f,
        schedule_resubscribe-SparesCore env f,
        become_subscribed-SparesCore r pairs (record f { sub = s }),
      )
      | inr (s, offset, x, e) ↦
          ground (arith, e, resubscribe-SparesCore env f, schedule_resubscribe-SparesCore env f)
    ]

pub handle_publication-SparesCore :
    (env : Env) (p : WirePublication) → SparesCore (λ f. (handle_publication env p f).0)
unfolding handle_publication notify
handle_publication-SparesCore env p f =
    elim (Result-cases (apply_delta_locked env f.client.protocol_type p (pub_from_proto p) f.sub)) [
      | inl ((s, event), e) ↦ ground (arith, e)
      | inr (x, e) ↦ ground (arith, e)
    ]

pub handle_join-SparesCore : (info : Option WireInfo) → SparesCore (handle_join info)
unfolding handle_join notify
handle_join-SparesCore info f = ground arith

pub handle_leave-SparesCore : (info : Option WireInfo) → SparesCore (handle_leave info)
unfolding handle_leave notify
handle_leave-SparesCore info f = ground arith

pub handle_unsubscribe-SparesCore :
    (env : Env) (code : ℕ) (reason : String) → SparesCore (handle_unsubscribe env code reason)
unfolding handle_unsubscribe
handle_unsubscribe-SparesCore env code reason f =
    let sent = if f.sub.inflight then send_unsubscribe_locked env f else f in
    let known = if code == unsubscribed_state_invalidated then invalidate_state f else f in
    ground (
      arith,
      send_unsubscribe_locked-SparesCore env f,
      move_to_unsubscribed_locked-SparesCore code reason subscription_unsubscribed sent,
      invalidate_state-SparesCore f,
      move_to_subscribing_locked-SparesCore code reason known,
      resubscribe-SparesCore env (move_to_subscribing_locked code reason known),
    )

pub on_subscribe-SparesCore : (call : Call) → SparesCore (on_subscribe call)
unfolding on_subscribe
on_subscribe-SparesCore call f = ground arith

pub resubscribe_timer_fired-SparesCore : (env : Env) → SparesCore (resubscribe_timer_fired env)
unfolding resubscribe_timer_fired
resubscribe_timer_fired-SparesCore env f = ground (
  arith,
  resubscribe-SparesCore env
      (record f { sub = record (f.sub) { resubscribe_timer = stop f.sub.resubscribe_timer } }),
)

pub unsubscribe_if_refresh_current-SparesCore :
    (env : Env) (session invalidations code : ℕ) (reason : String)
    → SparesCore (unsubscribe_if_refresh_current env session invalidations code reason)
unfolding unsubscribe_if_refresh_current
unsubscribe_if_refresh_current-SparesCore env session invalidations code reason f = ground (
  arith,
  send_unsubscribe_locked-SparesCore env f,
  move_to_unsubscribed_locked-SparesCore code reason subscription_unsubscribed
      (send_unsubscribe_locked env f),
)

pub rearm-SparesCore : (session ttl : ℕ) → SparesCore (rearm session ttl)
unfolding rearm
rearm-SparesCore session ttl f = ground arith
