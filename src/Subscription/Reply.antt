-- ===== src/Subscription/Reply.antt =====
-- The reply to a subscribe: `moveToSubscribed`, the token refresh that it arms, and the delivery of
-- recovered publications.
use centrifuge_go.Prelude.{
  ℕ, ◌+◌, ◌*◌, true, List, [], ◌∷◌, Option, none, some, ◌==◌, nat_key, ◌||◌, not, if◌then◌else◌,
  u64, is_empty, is_nil,
}
use centrifuge_go.Errors.{GoError}
use centrifuge_go.Backoff.{second}
use centrifuge_go.Protocol.{WirePublication, Publication, SubscribeResult}
use centrifuge_go.Effects.{notify, on_client}
use centrifuge_go.PushIds.{update_subscription_push_id}
use centrifuge_go.State.{
  Subscription, Frame, Env, SubscribedEvent, subscribed, is_subscribing, is_subscribed, stop,
  on_subscribed, deliver_recovered,
}
use centrifuge_go.Subscription.Delta.{applied, broken, apply_recovered, adopt_position}
use centrifuge_go.Subscription.Transitions.{resolve_sub_futures, schedule_resubscribe}
use centrifuge_go.Subscription.Resubscribe.{resubscribe}

unfoldable pub schedule_sub_refresh : ℕ → Subscription → Subscription
schedule_sub_refresh ttl s =
    let delay = (if ttl == 0 then 1 else ttl) * second in
    if not (is_subscribed s.state) then s else record s {
      refresh_timer = some (record { delay = delay; key = s.subscribed_session; armed = true });
    }

unfoldable pub subscribed_event : SubscribeResult → SubscribedEvent
subscribed_event r = record {
  data_bytes = r.data_bytes;
  recovered = r.recovered;
  was_recovering = r.was_recovering;
  recoverable = r.recoverable;
  positioned = r.positioned;
  position =
      if r.positioned || r.recoverable
      then some (record { offset = r.offset; epoch = r.epoch })
      else none;
}

-- The fields of the subscription that the reply sets, from the change of the state on.
unfoldable pub with_result : SubscribeResult → Subscription → Subscription
unfolding schedule_sub_refresh
with_result r s =
    let s1 = record s { state = subscribed; subscribed_session = u64 (s.subscribed_session + 1) } in
    let s2 = if r.expires then schedule_sub_refresh r.ttl s1 else s1 in
    let take_position = not (is_empty r.epoch) || is_empty s.epoch in
    record s2 {
      recover = r.recoverable || s.recover;
      resubscribe_attempts = 0;
      resubscribe_timer = stop s.resubscribe_timer;
      offset = if take_position then r.offset else s.offset;
      epoch = if take_position then r.epoch else s.epoch;
      push_id = r.id;
    }

-- The rest of `moveToSubscribed` once the deltas of the recovered publications are applied.
unfoldable pub become_subscribed :
    SubscribeResult → List (WirePublication × Publication) → Frame → Frame
unfolding with_result resolve_sub_futures
become_subscribed r pairs f =
    let s = f.sub in
    let f1 = resolve_sub_futures none f in
    let f2 : Frame = record {
      client = update_subscription_push_id s.address s.push_id r.id f1.client;
      sub = with_result r f1.sub;
    } in
    let f3 =
      on_client (notify s.handlers.on_subscribed (on_subscribed s.channel (subscribed_event r)))
        f2 in
    on_client
      (notify (not (is_nil pairs))
        (deliver_recovered s.address (u64 (s.subscribed_session + 1)) pairs))
      f3

-- `moveToSubscribed`. The second part is a broken delta, which the caller reports with
-- `deltaFailed`: the offset of its publication, and the error.
unfoldable pub move_to_subscribed :
    Env → SubscribeResult → ℕ → ℕ → Frame → Frame × Option (ℕ × GoError)
move_to_subscribed env r generation attempt f =
    let s = f.sub in
    let ready = record s { delta_negotiated = r.delta } in
    if not (is_subscribing s.state)
    then (f, none)
    else if not (s.subscribe_attempt == attempt)
    then (resubscribe env f, none)
    else if not (generation == f.client.conn_generation)
    then (schedule_resubscribe env f, none)
    else elim (apply_recovered env f.client.protocol_type r.publications ready) [
      | applied s' pairs ↦ (become_subscribed r pairs (record f { sub = s' }), none)
      | broken s' offset e ↦ (record f { sub = s' }, some (offset, e))
    ]

-- The queued function that delivers recovered publications. `handle` is the OnPublication handler,
-- with all that happens while it runs. It stops once the session has ended.
unfoldable pub deliver :
    (Publication → Frame → Frame) → ℕ → List (WirePublication × Publication) → Frame → Frame
deliver handle session [] f = f
deliver handle session ((p, event) ∷ rest) f =
    let f1 = record f { sub = adopt_position p f.sub } in
    let f2 = if f1.sub.handlers.on_publication then handle event f1 else f1 in
    let last = deliver handle session rest f2 in
    if not (is_subscribed f.sub.state) || not (f.sub.subscribed_session == session) then f else last
