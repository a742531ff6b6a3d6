-- ===== src/Subscription/Unsubscribed.antt =====
-- Only `Subscribe` takes a subscription out of the unsubscribed state.
use centrifuge_go.Prelude.{
  ℕ, String, Bool, true, false, none, some, ◌≡◌, refl, ◌&&◌, arith, nat_key, inl, inr, [], ◌∷◌,
  Option-cases, and_left, and_right, List,
}
use centrifuge_go.Errors.{Result, ok, err}
use centrifuge_go.Protocol.{WirePublication, Publication, SubscribeResult}
use centrifuge_go.State.{Frame, Env, unsubscribed}
use centrifuge_go.Subscription.{
  Op, Ops, Waiting, token_call, nothing, next, run, run_all, run_call, subscribes, unsubscribes,
  sets_tags_filter, calls, call_times_out, resubscribes, resubscribe_timer_fires,
  refresh_timer_fires, gets_token, gets_state, subscribe_replies, refresh_replies, delivers,
  publication_pushed, join_pushed, leave_pushed, unsubscribe_pushed, invalidates, loses_transport,
  closes, client_changes, TokenCall, StateCall, unsubscribe, set_tags_filter, on_subscribe,
  sub_future_timeout, resubscribe, resubscribe_timer_fired, refresh_timer_fired, refresh,
  continue_async, token_received, send_current, get_state_and_resubscribe, state_received,
  subscribe_replied, subscribe_failed, lock_current_subscribe, lock_current_attempt,
  move_to_subscribed, refresh_replied, deliver, handle_publication, handle_join, handle_leave,
  handle_unsubscribe, invalidate_state, move_to_unsubscribed, move_to_unsubscribed_locked,
  move_to_subscribing_locked,
}

-- No `Subscribe` call, nested ones included.
abbrev mutual
  pub without_subscribe : Op → Bool
  without_subscribe (subscribes registered) = false
  without_subscribe (refresh_timer_fires w) = waits_without_subscribe w
  without_subscribe (gets_token w) = waits_without_subscribe w
  without_subscribe (gets_state m reply h w) =
      all_without_subscribe m && (all_without_subscribe h && waits_without_subscribe w)
  without_subscribe (subscribe_replies r attempt generation h) = all_without_subscribe h
  without_subscribe (refresh_replies r session invalidations h) = all_without_subscribe h
  without_subscribe (delivers session pairs h) = all_without_subscribe h
  without_subscribe _ = true

  pub waits_without_subscribe : Waiting → Bool
  waits_without_subscribe (token_call m reply h) =
      all_without_subscribe m && all_without_subscribe h

  pub all_without_subscribe : Ops → Bool
  all_without_subscribe nothing = true
  all_without_subscribe (next op ops) = without_subscribe op && all_without_subscribe ops

abbrev pub StaysUnsubscribed : (Frame → Frame) → Type 0
StaysUnsubscribed g = (f : Frame) → f.sub.state ≡ unsubscribed → (g f).sub.state ≡ unsubscribed

continue_async-unsubscribed :
    (env : Env) (call : TokenCall)
    → StaysUnsubscribed call.meanwhile
    → StaysUnsubscribed (continue_async env call)
unfolding continue_async token_received send_current
continue_async-unsubscribed env call m f h = ground (arith, m f h)

get_state_and_resubscribe-unsubscribed :
    (env : Env) (call : StateCall) (token : TokenCall)
    → StaysUnsubscribed call.meanwhile
    → StaysUnsubscribed (get_state_and_resubscribe env call token)
unfolding get_state_and_resubscribe state_received
get_state_and_resubscribe-unsubscribed env call token m f h = ground (arith, m f h)

subscribe_replied-unsubscribed :
    (env : Env) (handled : Frame → Frame) (r : Result SubscribeResult) (attempt generation : ℕ)
    (f : Frame)
    → f.sub.state ≡ unsubscribed
    → (subscribe_replied env handled r attempt generation f).0.sub.state ≡ unsubscribed
unfolding subscribe_replied move_to_subscribed subscribe_failed lock_current_subscribe
    lock_current_attempt
subscribe_replied-unsubscribed env handled (ok r) attempt generation f h = ground arith
subscribe_replied-unsubscribed env handled (err e) attempt generation f h = ground arith

deliver-unsubscribed :
    (handle : Publication → Frame → Frame) (session : ℕ)
    (pairs : List (WirePublication × Publication)) (f : Frame)
    → f.sub.state ≡ unsubscribed
    → deliver handle session pairs f ≡ f
unfolding deliver
deliver-unsubscribed handle session [] f h = refl
deliver-unsubscribed handle session ((p, event) ∷ rest) f h = ground arith

refresh_timer_fired-unsubscribed :
    (env : Env) (call : TokenCall) → StaysUnsubscribed (refresh_timer_fired env call)
unfolding refresh_timer_fired refresh
refresh_timer_fired-unsubscribed env call f h = elim (Option-cases f.sub.refresh_timer) [
  | inl n ↦ ground (arith, n)
  | inr (t, n) ↦ ground (arith, n)
]

handle_unsubscribe-unsubscribed :
    (env : Env) (code : ℕ) (reason : String)
    → StaysUnsubscribed (handle_unsubscribe env code reason)
unfolding handle_unsubscribe move_to_unsubscribed_locked invalidate_state move_to_subscribing_locked
    resubscribe
handle_unsubscribe-unsubscribed env code reason f h = ground arith

refresh_replied-unsubscribed :
    (env : Env) (handled : Frame → Frame) (r : Result (Bool × ℕ)) (session invalidations : ℕ)
    → StaysUnsubscribed (refresh_replied env handled r session invalidations)
unfolding refresh_replied
refresh_replied-unsubscribed env handled (ok (expires, ttl)) session invalidations f h =
    ground arith
refresh_replied-unsubscribed env handled (err e) session invalidations f h = ground arith

mutual
  unfolding run unsubscribe set_tags_filter on_subscribe sub_future_timeout resubscribe
      resubscribe_timer_fired handle_publication handle_join handle_leave invalidate_state
      move_to_unsubscribed move_to_unsubscribed_locked move_to_subscribing_locked

  stays : (env : Env) (op : Op) → without_subscribe op ≡ true → StaysUnsubscribed (run env op)
  stays env (subscribes registered) w f h = cc
  stays env unsubscribes w f h = ground arith
  stays env (sets_tags_filter none) w f h = ground arith
  stays env (sets_tags_filter (some t)) w f h = ground arith
  stays env (calls call) w f h = ground arith
  stays env (call_times_out ctx id) w f h = ground arith
  stays env resubscribes w f h = ground arith
  stays env resubscribe_timer_fires w f h = ground arith
  stays env (refresh_timer_fires c) w f h =
      refresh_timer_fired-unsubscribed env (run_call env c) f h
  stays env (gets_token c) w f h =
      continue_async-unsubscribed env (run_call env c) (stays_meanwhile env c w) f h
  stays env (gets_state m reply k c) w f h =
      get_state_and_resubscribe-unsubscribed env
        (record { meanwhile = run_all env m; reply = reply; handled = run_all env k })
        (run_call env c) (stays_all env m (and_left _ _ w)) f h
  stays env (subscribe_replies r attempt generation k) w f h =
      subscribe_replied-unsubscribed env (run_all env k) r attempt generation f h
  stays env (refresh_replies r session invalidations k) w f h =
      refresh_replied-unsubscribed env (run_all env k) r session invalidations f h
  stays env (delivers session pairs k) w f h =
      rw (deliver-unsubscribed (λ _. run_all env k) session pairs f h) h
  stays env (publication_pushed p) w f h = ground arith
  stays env (join_pushed info) w f h = ground arith
  stays env (leave_pushed info) w f h = ground arith
  stays env (unsubscribe_pushed code reason) w f h =
      handle_unsubscribe-unsubscribed env code reason f h
  stays env invalidates w f h = ground arith
  stays env (loses_transport code reason) w f h = ground arith
  stays env (closes code reason) w f h = ground arith
  stays env (client_changes g) w f h = h

  stays_meanwhile :
      (env : Env) (c : Waiting)
      → waits_without_subscribe c ≡ true
      → StaysUnsubscribed (run_call env c).meanwhile
  stays_meanwhile env (token_call m reply k) w = stays_all env m (and_left _ _ w)

  stays_all :
      (env : Env) (ops : Ops)
      → all_without_subscribe ops ≡ true
      → StaysUnsubscribed (run_all env ops)
  stays_all env nothing w f h = h
  stays_all env (next op ops) w f h =
      stays_all env ops (and_right _ _ w) (run env op f) (stays env op (and_left _ _ w) f h)

-- An unsubscribed subscription stays unsubscribed through every sequence of replies, pushes, timers,
-- token and state answers and other calls, nested ones included, in which `Subscribe` is not called.
pub run_all-unsubscribed :
    (env : Env) (ops : Ops) (f : Frame)
    → all_without_subscribe ops ≡ true
    → f.sub.state ≡ unsubscribed
    → (run_all env ops f).sub.state ≡ unsubscribed
run_all-unsubscribed env ops f w h = stays_all env ops w f h
