-- ===== src/Subscription/Soundness/Sessions.antt =====
-- Replies, pushes, deliveries and refreshes keep a subscription sound.
use centrifuge_go.Prelude.{
  ℕ, String, Bool, List, [], ◌∷◌, Option, none, some, ◌≡◌, refl, sym, ap, subst, ◌∙◌, arith,
  nat_key, delete-nil, inl, inr, if◌then◌else◌, ◌==◌,
}
use centrifuge_go.Errors.{ok, Result-cases, subscription_unsubscribed}
use centrifuge_go.Protocol.{
  Slice, WireInfo, WirePublication, Publication, SubscribeResult, pub_from_proto,
}
use centrifuge_go.Codes.{unsubscribed_state_invalidated}
use centrifuge_go.Calls.{Context}
use centrifuge_go.State.{Subscription, Frame, Env, Call, ProtocolType, json, protobuf}
use centrifuge_go.Subscription.{
  move_to_subscribed, become_subscribed, schedule_sub_refresh, deliver, handle_publication,
  handle_join, handle_leave, handle_unsubscribe, invalidate_state, set_tags_filter,
  move_to_subscribing_locked, adopt_position, apply_delta_locked, apply_recovered, Applied, applied,
  broken, Applied-cases, reached, add_event, on_subscribe, sub_future_timeout,
  send_unsubscribe_locked,
}
use centrifuge_go.Subscription.Soundness.{
  IsSound, KeepsSound, schedule_resubscribe-IsSound, resubscribe-IsSound,
  move_to_unsubscribed_locked-IsSound, move_to_subscribing_locked-IsSound,
}

-- Decoding a publication changes only the delta base.
pub apply_delta_locked-base :
    (env : Env) (type : ProtocolType) (p : WirePublication) (event : Publication) (s : Subscription)
    {t : Subscription} {e : Publication}
    → apply_delta_locked env type p event s ≡ ok (t, e)
    → t ≡ record s { prev_data = t.prev_data }
unfolding apply_delta_locked
apply_delta_locked-base env json p event s h = ground arith
apply_delta_locked-base env protobuf p event s h = ground arith

reached-add_event :
    (pair : WirePublication × Publication) (a : Applied) → reached (add_event pair a) ≡ reached a
unfolding add_event
reached-add_event pair (applied s pairs) = refl
reached-add_event pair (broken s offset e) = refl

-- So does decoding the recovered ones, whether or not it fails on the way.
pub apply_recovered-base :
    (env : Env) (type : ProtocolType) (ps : List WirePublication) (s t : Subscription)
    → reached (apply_recovered env type ps s) ≡ t
    → t ≡ record s { prev_data = t.prev_data }
unfolding apply_recovered
apply_recovered-base env type [] s t h = cc
apply_recovered-base env type (p ∷ ps) s t h =
    elim (Result-cases (apply_delta_locked env type p (pub_from_proto p) s)) [
      | inl ((u, event), e) ↦ ground (
        arith,
        apply_delta_locked-base env type p (pub_from_proto p) s e,
        apply_recovered-base env type ps u t (
            sym (reached-add_event (p, event) (apply_recovered env type ps u))
            ∙ (rw (e, apply_recovered) at h)),
      )
      | inr (x, e) ↦ ground (arith, (rw (e, apply_recovered) at h))
    ]

-- The invariant does not look at the state of the deltas.
with_base-IsSound :
    (s : Subscription) (negotiated : Bool) (base : Slice)
    → IsSound s
    → IsSound (record s { delta_negotiated = negotiated; prev_data = base })
with_base-IsSound s negotiated base v = ground arith

base-IsSound :
    (s t : Subscription) → IsSound s → t ≡ record s { prev_data = t.prev_data } → IsSound t
base-IsSound s t v e = subst IsSound (sym e) (with_base-IsSound s s.delta_negotiated t.prev_data v)

pub become_subscribed-IsSound :
    (r : SubscribeResult) (pairs : List (WirePublication × Publication)) (f : Frame)
    → IsSound f.sub
    → IsSound (become_subscribed r pairs f).sub
unfolding become_subscribed schedule_sub_refresh
become_subscribed-IsSound r pairs f v = ground arith

pub handle_publication-IsSound :
    (env : Env) (p : WirePublication) (f : Frame)
    → IsSound f.sub
    → IsSound (handle_publication env p f).0.sub
unfolding handle_publication adopt_position
handle_publication-IsSound env p f v =
    elim (Result-cases (apply_delta_locked env f.client.protocol_type p (pub_from_proto p) f.sub)) [
      | inl ((t, event), e) ↦ ground (
        arith,
        e,
        base-IsSound f.sub t v
            (apply_delta_locked-base env f.client.protocol_type p (pub_from_proto p) f.sub e),
      )
      | inr (x, e) ↦ ground (arith, e)
    ]

pub handle_join-IsSound : (info : Option WireInfo) → KeepsSound (handle_join info)
unfolding handle_join
handle_join-IsSound info f v = ground arith

pub handle_leave-IsSound : (info : Option WireInfo) → KeepsSound (handle_leave info)
unfolding handle_leave
handle_leave-IsSound info f v = ground arith

pub invalidate_state-IsSound : KeepsSound invalidate_state
unfolding invalidate_state
invalidate_state-IsSound f v = ground arith

pub handle_unsubscribe-IsSound :
    (env : Env) (code : ℕ) (reason : String) → KeepsSound (handle_unsubscribe env code reason)
unfolding handle_unsubscribe
handle_unsubscribe-IsSound env code reason f v =
    let g = if code == unsubscribed_state_invalidated then invalidate_state f else f in
    ground (
      arith,
      move_to_unsubscribed_locked-IsSound code reason subscription_unsubscribed
          (if f.sub.inflight then send_unsubscribe_locked env f else f),
      invalidate_state-IsSound f,
      move_to_subscribing_locked-IsSound code reason g,
      resubscribe-IsSound env (move_to_subscribing_locked code reason g),
    )

pub set_tags_filter-IsSound :
    (t : Option ℕ) (s : Subscription) → IsSound s → IsSound (set_tags_filter t s).0
unfolding set_tags_filter
set_tags_filter-IsSound none s v = ground arith
set_tags_filter-IsSound (some t) s v = ground arith

pub on_subscribe-IsSound : (call : Call) → KeepsSound (on_subscribe call)
unfolding on_subscribe
on_subscribe-IsSound call f v = ground arith

pub sub_future_timeout-IsSound :
    (env : Env) (ctx : Context) (id : ℕ) → KeepsSound (sub_future_timeout env ctx id)
unfolding sub_future_timeout
sub_future_timeout-IsSound env ctx id f v = ground (arith, delete-nil id f.sub.sub_futures)

pub move_to_subscribed-IsSound :
    (env : Env) (r : SubscribeResult) (generation attempt : ℕ) (f : Frame)
    → IsSound f.sub
    → IsSound (move_to_subscribed env r generation attempt f).0.sub
unfolding move_to_subscribed
move_to_subscribed-IsSound env r generation attempt f v =
    let ready = record (f.sub) { delta_negotiated = r.delta } in
    let type = f.client.protocol_type in
    elim (Applied-cases (apply_recovered env type r.publications ready)) [
      | inl (t, pairs, e) ↦ ground (
        arith,
        e,
        resubscribe-IsSound env f,
        schedule_resubscribe-IsSound env f,
        become_subscribed-IsSound r pairs (record f { sub = t })
            (base-IsSound ready t (with_base-IsSound f.sub r.delta f.sub.prev_data v)
              (apply_recovered-base env type r.publications ready t (ap reached e))),
      )
      | inr (t, offset, x, e) ↦ ground (
        arith,
        e,
        resubscribe-IsSound env f,
        schedule_resubscribe-IsSound env f,
        base-IsSound ready t (with_base-IsSound f.sub r.delta f.sub.prev_data v)
            (apply_recovered-base env type r.publications ready t (ap reached e)),
      )
    ]

adopt_position-IsSound :
    (p : WirePublication) (s : Subscription) → IsSound s → IsSound (adopt_position p s)
unfolding adopt_position
adopt_position-IsSound p s v = ground arith

pub deliver-IsSound :
    (handle : Publication → Frame → Frame) (session : ℕ)
    (pairs : List (WirePublication × Publication))
    → ((event : Publication) → KeepsSound (handle event))
    → KeepsSound (deliver handle session pairs)
unfolding deliver
deliver-IsSound handle session [] k f v = v
deliver-IsSound handle session ((p, event) ∷ rest) k f v =
    let f1 : Frame = record f { sub = adopt_position p f.sub } in
    let v1 = adopt_position-IsSound p f.sub v in
    let f2 = if f1.sub.handlers.on_publication then handle event f1 else f1 in
    ground (arith, v1, k event f1 v1, deliver-IsSound handle session rest k f2)
