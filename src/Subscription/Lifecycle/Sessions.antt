-- ===== src/Subscription/Lifecycle/Sessions.antt =====
-- Replies and pushes of a subscription, and the queued events.
use centrifuge_go.Prelude.{
  ℕ, String, false, List, [], ◌∷◌, Option, none, some, ap, arith, nat_key, string_key, inl, inr,
  if◌then◌else◌, ◌==◌, ==_refl, Option-cases, lookup,
}
use centrifuge_go.Codes.{unsubscribed_state_invalidated}
use centrifuge_go.Errors.{Result, ok, err, Result-cases, subscription_unsubscribed, timeout}
use centrifuge_go.Calls.{Context}
use centrifuge_go.Effects.{notify}
use centrifuge_go.PushIds.{update_subscription_push_id}
use centrifuge_go.Protocol.{
  WireInfo, WirePublication, Publication, SubscribeResult, pub_from_proto, info_from_proto,
}
use centrifuge_go.State.{Frame, Env, Call, subscribed, on_publication, on_join, on_leave}
use centrifuge_go.Subscription.{
  set_inflight, move_to_subscribing_locked, move_to_subscribed, apply_delta_locked, apply_recovered,
  Applied-cases, reached, adopt_position, handle_publication, handle_join, handle_leave,
  handle_unsubscribe, invalidate_state, set_tags_filter, on_subscribe, sub_future_timeout, deliver,
  send_unsubscribe_locked, subscribe_replied,
}
use centrifuge_go.Subscription.Soundness.Sessions.{apply_delta_locked-base, apply_recovered-base}
use centrifuge_go.Subscription.Lifecycle.{IsTold, KeepsTold, tell, told-next}
use centrifuge_go.Subscription.Lifecycle.Quiet.{run_sub_future-SameEvents}
use centrifuge_go.Subscription.Lifecycle.Moves.{
  move_to_unsubscribed_locked-IsTold, move_to_subscribing_locked-IsTold,
  schedule_resubscribe-IsTold, send_unsubscribe_locked-IsTold, resubscribe-IsTold,
  become_subscribed-IsTold,
}
use centrifuge_go.Subscription.Lifecycle.Waits.{subscribe_failed-IsTold}

pub handle_publication-IsTold :
    (env : Env) (p : WirePublication) (f : Frame) → IsTold f → IsTold (handle_publication env p f).0
unfolding handle_publication notify tell adopt_position
handle_publication-IsTold env p f v =
    let c = f.sub.channel in
    elim (Result-cases (apply_delta_locked env f.client.protocol_type p (pub_from_proto p) f.sub)) [
      | inl ((t, event), e) ↦
          let base =
            apply_delta_locked-base env f.client.protocol_type p (pub_from_proto p) f.sub e in
          ground (
            arith,
            e,
            v,
            ==_refl c,
            base,
            told-next c f.client.events (on_publication c event) subscribed subscribed,
          )
      | inr (x, e) ↦ ground (arith, e, v)
    ]

pub handle_join-IsTold : (info : Option WireInfo) → KeepsTold (handle_join info)
unfolding handle_join tell notify
handle_join-IsTold info f v =
    let c = f.sub.channel in
    ground (
      arith,
      v,
      ==_refl c,
      told-next c f.client.events (on_join c (info_from_proto info)) subscribed subscribed,
    )

pub handle_leave-IsTold : (info : Option WireInfo) → KeepsTold (handle_leave info)
unfolding handle_leave tell notify
handle_leave-IsTold info f v =
    let c = f.sub.channel in
    ground (
      arith,
      v,
      ==_refl c,
      told-next c f.client.events (on_leave c (info_from_proto info)) subscribed subscribed,
    )

pub invalidate_state-IsTold : KeepsTold invalidate_state
unfolding invalidate_state update_subscription_push_id
invalidate_state-IsTold f v = ground (arith, v)

pub handle_unsubscribe-IsTold :
    (env : Env) (code : ℕ) (reason : String) → KeepsTold (handle_unsubscribe env code reason)
unfolding handle_unsubscribe
handle_unsubscribe-IsTold env code reason f v =
    let g = if code == unsubscribed_state_invalidated then invalidate_state f else f in
    ground (
      arith,
      v,
      move_to_unsubscribed_locked-IsTold code reason subscription_unsubscribed f v,
      move_to_unsubscribed_locked-IsTold code reason subscription_unsubscribed
          (send_unsubscribe_locked env f) (send_unsubscribe_locked-IsTold env f v),
      invalidate_state-IsTold f,
      move_to_subscribing_locked-IsTold code reason g,
      resubscribe-IsTold env (move_to_subscribing_locked code reason g),
    )

pub set_tags_filter-IsTold :
    (t : Option ℕ) (f : Frame) → IsTold f → IsTold (record f { sub = (set_tags_filter t f.sub).0 })
unfolding set_tags_filter
set_tags_filter-IsTold none f v = ground (arith, v)
set_tags_filter-IsTold (some t) f v = ground (arith, v)

pub on_subscribe-IsTold : (call : Call) → KeepsTold (on_subscribe call)
unfolding on_subscribe
on_subscribe-IsTold call f v = ground (arith, v)

pub sub_future_timeout-IsTold :
    (env : Env) (ctx : Context) (id : ℕ) → KeepsTold (sub_future_timeout env ctx id)
unfolding sub_future_timeout
sub_future_timeout-IsTold env ctx id f v = elim (Option-cases (lookup id f.sub.sub_futures)) [
  | inl n ↦ ground (arith, n, v)
  | inr (call, n) ↦
      ground (arith, n, v, run_sub_future-SameEvents env ctx call (some timeout) f.client)
]

pub move_to_subscribed-IsTold :
    (env : Env) (r : SubscribeResult) (generation attempt : ℕ) (f : Frame)
    → IsTold f
    → IsTold (move_to_subscribed env r generation attempt f).0
unfolding move_to_subscribed
move_to_subscribed-IsTold env r generation attempt f v =
    let ready = record (f.sub) { delta_negotiated = r.delta } in
    let type = f.client.protocol_type in
    elim (Applied-cases (apply_recovered env type r.publications ready)) [
      | inl (t, pairs, e) ↦ ground (
        arith,
        e,
        v,
        resubscribe-IsTold env f,
        schedule_resubscribe-IsTold env f,
        apply_recovered-base env type r.publications ready t (ap reached e),
        become_subscribed-IsTold r pairs (record f { sub = t }),
      )
      | inr (t, offset, x, e) ↦ ground (
        arith,
        e,
        v,
        resubscribe-IsTold env f,
        schedule_resubscribe-IsTold env f,
        apply_recovered-base env type r.publications ready t (ap reached e),
      )
    ]

pub subscribe_replied-IsTold :
    (env : Env) (handled : Frame → Frame) (r : Result SubscribeResult) (attempt generation : ℕ)
    → KeepsTold handled
    → (f : Frame) → IsTold f
    → IsTold (subscribe_replied env handled r attempt generation f).0
unfolding subscribe_replied
subscribe_replied-IsTold env handled (ok r) attempt generation k f v =
    move_to_subscribed-IsTold env r generation attempt (set_inflight false f) (ground (arith, v))
subscribe_replied-IsTold env handled (err e) attempt generation k f v =
    subscribe_failed-IsTold env handled e attempt generation k (set_inflight false f)
      (ground (arith, v))

pub deliver-IsTold :
    (handle : Publication → Frame → Frame) (session : ℕ)
    (pairs : List (WirePublication × Publication))
    → ((event : Publication) → KeepsTold (handle event))
    → KeepsTold (deliver handle session pairs)
unfolding deliver adopt_position
deliver-IsTold handle session [] k f v = v
deliver-IsTold handle session ((p, event) ∷ rest) k f v =
    let f1 : Frame = record f { sub = adopt_position p f.sub } in
    let v1 : IsTold f1 = ground (arith, v) in
    let f2 = if f1.sub.handlers.on_publication then handle event f1 else f1 in
    ground (arith, v, v1, k event f1 v1, deliver-IsTold handle session rest k f2)
