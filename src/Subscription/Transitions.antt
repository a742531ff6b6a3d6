-- ===== src/Subscription/Transitions.antt =====
-- The state changes of a subscription: to unsubscribed, to subscribing, and the resubscribe timer.
use centrifuge_go.Prelude.{
  ℕ, ◌+◌, String, Bool, true, List, [], ◌∷◌, ◌++◌, Option, none, some, ◌==◌, nat_key, ◌&&◌, not,
  if◌then◌else◌, u64,
}
use centrifuge_go.Errors.{GoError, subscription_unsubscribed, client_closed}
use centrifuge_go.Codes.{unsubscribed_unsubscribe_called}
use centrifuge_go.Backoff.{time_before_next_attempt}
use centrifuge_go.Effects.{notify, on_client}
use centrifuge_go.Requests.{send_unsubscribe}
use centrifuge_go.PushIds.{update_subscription_push_id}
use centrifuge_go.State.{
  Subscription, Frame, Env, Task, Call, stop, unsubscribed, subscribing, is_unsubscribed,
  is_subscribing, is_closed, sub_future_task, on_unsubscribed, on_subscribing,
}

unfoldable pub sub_future_tasks : Option GoError → List (ℕ × Call) → List Task
sub_future_tasks e [] = []
sub_future_tasks e ((id, fn) ∷ futures) = sub_future_task fn e ∷ sub_future_tasks e futures

-- Each waiting call goes on in a goroutine of its own.
unfoldable pub resolve_sub_futures : Option GoError → Frame → Frame
unfolding sub_future_tasks
resolve_sub_futures e f = record {
  client = record (f.client) { tasks = f.client.tasks ++ sub_future_tasks e f.sub.sub_futures };
  sub = record (f.sub) { sub_futures = [] };
}

-- `if s.pushID != 0 { updateSubscriptionPushID(s, s.pushID, 0); s.pushID = 0 }`.
unfoldable pub clear_push_id : Frame → Frame
clear_push_id f = if f.sub.push_id == 0 then f else record {
  client = update_subscription_push_id f.sub.address f.sub.push_id 0 f.client;
  sub = record (f.sub) { push_id = 0 };
}

abbrev stop_timers : Subscription → Subscription
stop_timers s = record s {
  resubscribe_timer = stop s.resubscribe_timer;
  refresh_timer = stop s.refresh_timer;
}

unfoldable pub move_to_unsubscribed_locked : ℕ → String → GoError → Frame → Frame
unfolding resolve_sub_futures clear_push_id
move_to_unsubscribed_locked code reason futures_err f =
    let s = f.sub in
    let need_event = not (is_unsubscribed s.state) in
    let f1 = record f {
      sub = stop_timers (record s {
        subscribe_attempt = u64 (s.subscribe_attempt + 1);
        resubscribe_attempts = 0;
      });
    } in
    let f2 = resolve_sub_futures (some futures_err) f1 in
    let f3 = clear_push_id (record f2 { sub = record (f2.sub) { state = unsubscribed } }) in
    on_client
      (notify (need_event && s.handlers.on_unsubscribed) (on_unsubscribed s.channel code reason)) f3

unfoldable pub move_to_unsubscribed : ℕ → String → Frame → Frame
move_to_unsubscribed code reason = move_to_unsubscribed_locked code reason subscription_unsubscribed

-- The command is written only while the client is connected.
unfoldable pub send_unsubscribe_locked : Env → Frame → Frame
send_unsubscribe_locked env f =
    if f.client.connected then on_client (send_unsubscribe env f.sub.channel) f else f

-- `unsubscribe` of the source.
unfoldable pub unsubscribe_with : Env → ℕ → String → Bool → Frame → Frame
unsubscribe_with env code reason send_it f =
    move_to_unsubscribed_locked code reason subscription_unsubscribed
      (if send_it && not (is_unsubscribed f.sub.state) then send_unsubscribe_locked env f else f)

-- `Unsubscribe`.
unfoldable pub unsubscribe : Env → Frame → Frame × Option GoError
unfolding unsubscribe_with
unsubscribe env f =
    if is_closed f.client.state
    then (f, some client_closed)
    else (unsubscribe_with env unsubscribed_unsubscribe_called "unsubscribe called" true f, none)

unfoldable pub queue_subscribing_locked : ℕ → String → Frame → Frame
queue_subscribing_locked code reason f =
    on_client (notify f.sub.handlers.on_subscribing (on_subscribing f.sub.channel code reason)) f

-- A subscription that is unsubscribed stays so.
unfoldable pub move_to_subscribing_locked : ℕ → String → Frame → Frame
unfolding queue_subscribing_locked
move_to_subscribing_locked code reason f =
    let s = f.sub in
    let f1 = record f {
      sub = stop_timers (record s { resubscribe_attempts = 0; state = subscribing });
    } in
    if is_unsubscribed s.state
    then f
    else if is_subscribing s.state
    then f1
    else queue_subscribing_locked code reason f1

-- A timer that was armed before is replaced. `resubscribe_attempts` is an int.
unfoldable pub schedule_resubscribe : Env → Frame → Frame
unfolding time_before_next_attempt
schedule_resubscribe env f =
    let s = f.sub in
    let delay =
      time_before_next_attempt env.for_attempt s.resubscribe_strategy s.resubscribe_attempts in
    record f {
      sub = record s {
        resubscribe_attempts = s.resubscribe_attempts + 1;
        resubscribe_timer = some (record { delay = delay; key = 0; armed = true });
      };
    }
