-- ===== src/Subscription/Futures.antt =====
-- Calls of a subscription (`Publish`, `History`, `Presence`, `PresenceStats`) that wait until it is
-- subscribed.
use centrifuge_go.Prelude.{ℕ, ◌+◌, Option, none, some, nat_key, u64, lookup, insert, delete}
use centrifuge_go.Errors.{GoError, timeout, subscription_unsubscribed}
use centrifuge_go.Effects.{spawn, on_client}
use centrifuge_go.Calls.{Context, finish_call, on_connect}
use centrifuge_go.State.{
  Client, Frame, Env, Call, SubState, unsubscribed, subscribing, subscribed, sub_future_task,
  sub_future_timer,
}

-- A call made while the subscription is subscribing becomes a future with a timer.
add_sub_future : Call → Frame → Frame
unfolding spawn
add_sub_future fn f =
    let s = f.sub in
    let id = u64 (s.future_id + 1) in
    on_client (spawn (sub_future_timer s.address id))
      (record f { sub = record s { future_id = id; sub_futures = insert id fn s.sub_futures } })

on_subscribe_at : SubState → Call → Frame → Frame
unfolding add_sub_future spawn
on_subscribe_at subscribed fn f = on_client (spawn (sub_future_task fn none)) f
on_subscribe_at unsubscribed fn f =
    on_client (spawn (sub_future_task fn (some subscription_unsubscribed))) f
on_subscribe_at subscribing fn f = add_sub_future fn f

unfoldable pub on_subscribe : Call → Frame → Frame
unfolding on_subscribe_at
on_subscribe fn f = on_subscribe_at f.sub.state fn f

-- The function that `publish`, `history`, `presence` and `presenceStats` pass to `onSubscribe`.
unfoldable pub run_sub_future : Env → Context → Call → Option GoError → Client → Client
unfolding finish_call
run_sub_future env ctx fn e c = elim (ctx fn) [
  | some x ↦ finish_call fn (some x) c
  | none ↦ elim e [ some x ↦ finish_call fn (some x) c | none ↦ on_connect env ctx fn c ]
]

-- The timer of a future: it does nothing once the future was resolved.
unfoldable pub sub_future_timeout : Env → Context → ℕ → Frame → Frame
unfolding run_sub_future
sub_future_timeout env ctx id f = elim (lookup id f.sub.sub_futures) [
  | none ↦ f
  | some fn ↦
      on_client (run_sub_future env ctx fn (some timeout))
        (record f { sub = record (f.sub) { sub_futures = delete id f.sub.sub_futures } })
]
