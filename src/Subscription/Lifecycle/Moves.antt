-- ===== src/Subscription/Lifecycle/Moves.antt =====
-- The state changes of a subscription, and the queued events.
use centrifuge_go.Prelude.{
  ℕ, String, Bool, true, List, [], ◌∷◌, none, some, ◌≡◌, refl, arith, nat_key, string_key, ==_refl,
  u64, ◌+◌, ◌++◌,
}
use centrifuge_go.Errors.{GoError, subscription_unsubscribed}
use centrifuge_go.Codes.{subscribing_subscribe_called}
use centrifuge_go.Effects.{notify, notify_sync, run_handler_sync, on_client}
use centrifuge_go.Protocol.{WirePublication, Publication, SubscribeResult}
use centrifuge_go.PushIds.{update_subscription_push_id}
use centrifuge_go.State.{
  Frame, Env, Subscription, Event, unsubscribed, subscribing, subscribed, on_subscribing,
  on_subscribed, on_unsubscribed, on_sub_error, deliver_recovered, subscribe_cb,
}
use centrifuge_go.Subscription.{
  move_to_unsubscribed_locked, move_to_subscribing_locked, resolve_sub_futures,
  queue_subscribing_locked, schedule_resubscribe, send_unsubscribe_locked, unsubscribe,
  unsubscribe_with, send_current, continue_sync, resubscribe, subscribe, set_inflight,
  subscribe_request, become_subscribed, with_result, subscribed_event, schedule_sub_refresh,
  emit_error,
}
use centrifuge_go.Subscription.Lifecycle.{IsTold, KeepsTold, tell, told-next}
use centrifuge_go.Subscription.Lifecycle.Quiet.{
  send_subscribe-SameEvents, send_unsubscribe-SameEvents,
}

pub move_to_unsubscribed_locked-IsTold :
    (code : ℕ) (reason : String) (e : GoError)
    → KeepsTold (move_to_unsubscribed_locked code reason e)
unfolding move_to_unsubscribed_locked update_subscription_push_id notify tell
move_to_unsubscribed_locked-IsTold code reason e f v =
    let c = f.sub.channel in
    let event = on_unsubscribed c code reason in
    ground (
      arith,
      v,
      ==_refl c,
      told-next c f.client.events event subscribing unsubscribed,
      told-next c f.client.events event subscribed unsubscribed,
    )

pub move_to_subscribing_locked-IsTold :
    (code : ℕ) (reason : String) → KeepsTold (move_to_subscribing_locked code reason)
unfolding move_to_subscribing_locked notify tell
move_to_subscribing_locked-IsTold code reason f v =
    let c = f.sub.channel in
    ground (
      arith,
      v,
      ==_refl c,
      told-next c f.client.events (on_subscribing c code reason) subscribed subscribing,
    )

pub schedule_resubscribe-IsTold : (env : Env) → KeepsTold (schedule_resubscribe env)
unfolding schedule_resubscribe
schedule_resubscribe-IsTold env f v = ground (arith, v)

pub send_unsubscribe_locked-IsTold : (env : Env) → KeepsTold (send_unsubscribe_locked env)
unfolding send_unsubscribe_locked
send_unsubscribe_locked-IsTold env f v =
    ground (arith, v, send_unsubscribe-SameEvents env f.sub.channel f.client)

pub unsubscribe-IsTold : (env : Env) (f : Frame) → IsTold f → IsTold (unsubscribe env f).0
unfolding unsubscribe unsubscribe_with
unsubscribe-IsTold env f v = ground (
  arith,
  v,
  move_to_unsubscribed_locked-IsTold 0 "unsubscribe called" subscription_unsubscribed f,
  move_to_unsubscribed_locked-IsTold 0 "unsubscribe called" subscription_unsubscribed
      (send_unsubscribe_locked env f),
  send_unsubscribe_locked-IsTold env f,
)

pub send_current-IsTold :
    (env : Env) (token : String) (attempt invalidations : ℕ)
    → KeepsTold (send_current env token attempt invalidations)
unfolding send_current
send_current-IsTold env token attempt invalidations f v = ground (
  arith,
  v,
  send_subscribe-SameEvents env (subscribe_request token f.sub)
      (subscribe_cb f.sub.address attempt f.client.conn_generation) f.client,
)

pub resubscribe-IsTold : (env : Env) → KeepsTold (resubscribe env)
unfolding resubscribe continue_sync
resubscribe-IsTold env f v = ground (
  arith,
  v,
  send_current-IsTold env f.sub.token f.sub.subscribe_attempt f.sub.invalidations
      (set_inflight true f),
)

pub subscribe-IsTold :
    (env : Env) (registered : Bool) (f : Frame) → IsTold f → IsTold (subscribe env registered f).0
unfolding subscribe queue_subscribing_locked notify tell
subscribe-IsTold env registered f v =
    let c = f.sub.channel in
    let f1 =
      queue_subscribing_locked subscribing_subscribe_called "subscribe called"
        (record f { sub = record (f.sub) { state = subscribing } }) in
    ground (
      arith,
      v,
      ==_refl c,
      told-next c f.client.events (on_subscribing c subscribing_subscribe_called "subscribe called")
          unsubscribed subscribing,
      resubscribe-IsTold env f1,
    )

pub emit_error-IsTold : (e : GoError) → KeepsTold (emit_error e)
unfolding emit_error notify_sync run_handler_sync tell
emit_error-IsTold e f v =
    let c = f.sub.channel in
    ground (arith, v, told-next c f.client.events (on_sub_error c e) f.sub.state f.sub.state)

-- An event that the machine takes without a move.
pub notify-IsTold :
    (set : Bool) (e : Event) (f : Frame)
    → tell f.sub.channel f.sub.state e ≡ some f.sub.state
    → IsTold f
    → IsTold (on_client (notify set e) f)
unfolding notify
notify-IsTold set e f k v =
    ground (arith, v, told-next f.sub.channel f.client.events e f.sub.state f.sub.state)

-- The parts of a frame that the machine looks at, after a subscribe succeeded and was told.
with_result-subscribed :
    (r : SubscribeResult) (s : Subscription)
    → ((with_result r s).state ≡ subscribed)
      × ((with_result r s).channel ≡ s.channel)
      × ((with_result r s).handlers ≡ s.handlers)
unfolding with_result schedule_sub_refresh
with_result-subscribed r s = ground arith

pub become_subscribed-IsTold :
    (r : SubscribeResult) (pairs : List (WirePublication × Publication)) (f : Frame)
    → f.sub.state ≡ subscribing
    → IsTold f
    → IsTold (become_subscribed r pairs f)
unfolding become_subscribed update_subscription_push_id notify tell
become_subscribed-IsTold r pairs f e v =
    let c = f.sub.channel in
    let event = on_subscribed c (subscribed_event r) in
    let later = deliver_recovered f.sub.address (u64 (f.sub.subscribed_session + 1)) pairs in
    let told1 =
      told-next c f.client.events event subscribing subscribed (ground (arith, v, e))
        (ground (arith, ==_refl c)) in
    let told2 =
      told-next c (f.client.events ++ (event ∷ [])) later subscribed subscribed told1 refl in
    ground (arith, v, told1, told2, with_result-subscribed r (resolve_sub_futures none f).sub)
