-- ===== src/Subscription/Callbacks.antt =====
-- The functions that a subscription hands to others: to its timers, and to the request table for
-- the reply to a subscribe.
use centrifuge_go.Prelude.{ℕ, false, Option, none, some, if◌then◌else◌}
use centrifuge_go.Errors.{GoError, Result, ok, err}
use centrifuge_go.Protocol.{SubscribeResult}
use centrifuge_go.State.{Frame, Env, Timer, is_subscribing, stop, is_armed}
use centrifuge_go.Subscription.Resubscribe.{resubscribe, set_inflight}
use centrifuge_go.Subscription.Failure.{TokenCall, subscribe_failed}
use centrifuge_go.Subscription.Reply.{move_to_subscribed}
use centrifuge_go.Subscription.Refresh.{refresh}

-- The function of `scheduleResubscribe`; a timer that fired is not armed any more.
unfoldable pub resubscribe_timer_fired : Env → Frame → Frame
resubscribe_timer_fired env f =
    let s = f.sub in
    let f1 = record f { sub = record s { resubscribe_timer = stop s.resubscribe_timer } } in
    if is_armed s.resubscribe_timer
    then (if is_subscribing s.state then resubscribe env f1 else f1)
    else f

refresh_timer_at : Env → TokenCall → Option Timer → Frame → Frame
refresh_timer_at env call none f = f
refresh_timer_at env call (some t) f =
    let f1 = record f { sub = record (f.sub) { refresh_timer = stop f.sub.refresh_timer } } in
    let f2 = refresh env call t.key f1 in if t.armed then f2 else f

-- The function of `scheduleSubRefresh`, for the session that it captured.
unfoldable pub refresh_timer_fired : Env → TokenCall → Frame → Frame
unfolding refresh_timer_at
refresh_timer_fired env call f = refresh_timer_at env call f.sub.refresh_timer f

-- The callback that `continueResubscribe` passes to `sendSubscribe`. The second part is a broken
-- delta, as of `move_to_subscribed`.
unfoldable pub subscribe_replied :
    Env → (Frame → Frame) → Result SubscribeResult → ℕ → ℕ → Frame → Frame × Option (ℕ × GoError)
subscribe_replied env handled (err e) attempt generation f =
    (subscribe_failed env handled e attempt generation (set_inflight false f), none)
subscribe_replied env handled (ok r) attempt generation f =
    move_to_subscribed env r generation attempt (set_inflight false f)
