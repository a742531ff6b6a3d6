-- ===== src/Subscription/Progress/Replies.antt =====
-- The callback of the subscribe command, and what it leaves to wait for.
use centrifuge_go.Prelude.{
  List, ap, ◌∙◌, ℕ, false, none, refl, ◌≡◌, ◌≢◌, ◌⊎◌, inl, inr, arith, nat_key,
}
use centrifuge_go.Errors.{GoError, Result, ok, err, as_server_error, subscribe_error}
use centrifuge_go.Protocol.{SubscribeResult, WirePublication, Publication}
use centrifuge_go.State.{Frame, Env}
use centrifuge_go.Subscription.{
  reached, with_result, schedule_sub_refresh, resolve_sub_futures, set_inflight,
  lock_current_subscribe, subscribe_failed, subscribe_replied, move_to_subscribed,
  become_subscribed, emit_error, apply_recovered, Applied-cases, forget_position, subscribe_replied,
}
use centrifuge_go.Subscription.Soundness.Sessions.{apply_recovered-base}
use centrifuge_go.Subscription.Progress.Owners.{
  emit_error-inflight, lock_current_subscribe-keeps, subscribe_failed-IsOwned,
  schedule_resubscribe-IsOwned,
}
use centrifuge_go.Subscription.Progress.{
  IsOwned, LeavesOwned, GoesOn, owned_resubscribe-GoesOn, resubscribe-IsOwned,
  schedule_resubscribe-GoesOn, finish_subscribe_error-GoesOn, lock_current_subscribe-GoesOn,
  idle-GoesOn, disconnect-GoesOn, become_subscribed-state, landed-IsOwned,
}

pub subscribe_failed-GoesOn :
    (env : Env) (handled : Frame → Frame) (e : GoError) (attempt generation : ℕ) (f : Frame)
    → LeavesOwned handled
    → f.sub.inflight ≡ false
    → GoesOn (subscribe_failed env handled e attempt generation f)
unfolding subscribe_failed
subscribe_failed-GoesOn env handled e attempt generation f k v =
    let se = as_server_error e in
    let told = emit_error (subscribe_error e) f in
    let g = handled told in
    let f2 = (lock_current_subscribe env attempt generation f).1 in
    let f3 = (lock_current_subscribe env attempt generation g).1 in
    let same = lock_current_subscribe-keeps env attempt generation f in
    ground (
      arith,
      same,
      lock_current_subscribe-GoesOn env attempt generation f (landed-IsOwned f v),
      lock_current_subscribe-GoesOn env attempt generation g (k told (emit_error-inflight _ f v)),
      disconnect-GoesOn f,
      schedule_resubscribe-GoesOn env (record f { sub = forget_position f.sub }),
      finish_subscribe_error-GoesOn env e se f3,
    )

-- A reply to a subscribe, with its broken delta, if any, for `deltaFailed`.
move_to_subscribed-GoesOn :
    (env : Env) (r : SubscribeResult) (generation attempt : ℕ) (f : Frame)
    → f.sub.inflight ≡ false
    → GoesOn (move_to_subscribed env r generation attempt f).0
      ⊎ ((move_to_subscribed env r generation attempt f).1 ≢ none)
unfolding move_to_subscribed
move_to_subscribed-GoesOn env r generation attempt f v =
    let ready = record (f.sub) { delta_negotiated = r.delta } in
    elim (Applied-cases (apply_recovered env f.client.protocol_type r.publications ready)) [
      | inl (s, pairs, n) ↦ ground (
        arith,
        n,
        idle-GoesOn f,
        owned_resubscribe-GoesOn env f (landed-IsOwned f v),
        schedule_resubscribe-GoesOn env f,
        idle-GoesOn (become_subscribed r pairs (record f { sub = s })),
        become_subscribed-state r pairs (record f { sub = s }),
      )
      | inr (s, offset, e, n) ↦ ground (
        arith,
        n,
        idle-GoesOn f,
        owned_resubscribe-GoesOn env f (landed-IsOwned f v),
        schedule_resubscribe-GoesOn env f,
      )
    ]

pub subscribe_replied-GoesOn :
    (env : Env) (handled : Frame → Frame) (reply : Result SubscribeResult) (attempt generation : ℕ)
    (f : Frame)
    → LeavesOwned handled
    → GoesOn (subscribe_replied env handled reply attempt generation f).0
      ⊎ ((subscribe_replied env handled reply attempt generation f).1 ≢ none)
unfolding subscribe_replied
subscribe_replied-GoesOn env handled (ok r) attempt generation f k =
    move_to_subscribed-GoesOn env r generation attempt (set_inflight false f) refl
subscribe_replied-GoesOn env handled (err e) attempt generation f k =
    inl (subscribe_failed-GoesOn env handled e attempt generation (set_inflight false f) k refl)

become_subscribed-inflight :
    (r : SubscribeResult) (pairs : List (WirePublication × Publication)) (f : Frame)
    → (become_subscribed r pairs f).sub.inflight ≡ f.sub.inflight
unfolding become_subscribed with_result schedule_sub_refresh resolve_sub_futures
become_subscribed-inflight r pairs f = ground arith

move_to_subscribed-IsOwned :
    (env : Env) (r : SubscribeResult) (generation attempt : ℕ) (f : Frame)
    → f.sub.inflight ≡ false
    → IsOwned (move_to_subscribed env r generation attempt f).0
unfolding move_to_subscribed
move_to_subscribed-IsOwned env r generation attempt f v =
    let type = f.client.protocol_type in
    let ready = record (f.sub) { delta_negotiated = r.delta } in
    let owned = landed-IsOwned f v in
    elim (Applied-cases (apply_recovered env type r.publications ready)) [
      | inl (s, pairs, n) ↦
          let same = apply_recovered-base env type r.publications ready s (ap reached n) in
          let v' : s.inflight ≡ false = ap (λ u. u.inflight) same ∙ v in
          ground (
            arith,
            n,
            owned,
            resubscribe-IsOwned env f owned,
            schedule_resubscribe-IsOwned env f owned,
            landed-IsOwned (become_subscribed r pairs (record f { sub = s }))
                (become_subscribed-inflight r pairs (record f { sub = s }) ∙ v'),
          )
      | inr (s, offset, e, n) ↦
          let same = apply_recovered-base env type r.publications ready s (ap reached n) in
          let v' : s.inflight ≡ false = ap (λ u. u.inflight) same ∙ v in
          ground (
            arith,
            n,
            owned,
            resubscribe-IsOwned env f owned,
            schedule_resubscribe-IsOwned env f owned,
            landed-IsOwned (record f { sub = s }) v',
          )
    ]

pub subscribe_replied-IsOwned :
    (env : Env) (handled : Frame → Frame) (reply : Result SubscribeResult) (attempt generation : ℕ)
    (f : Frame)
    → LeavesOwned handled
    → IsOwned (subscribe_replied env handled reply attempt generation f).0
unfolding subscribe_replied
subscribe_replied-IsOwned env handled (ok r) attempt generation f k =
    move_to_subscribed-IsOwned env r generation attempt (set_inflight false f) refl
subscribe_replied-IsOwned env handled (err e) attempt generation f k =
    subscribe_failed-IsOwned env handled e attempt generation (set_inflight false f) k refl
