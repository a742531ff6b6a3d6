-- ===== src/Subscription/Resubscribe.antt =====
-- The subscribe flow: `Subscribe`, `resubscribe`, the `GetState` and `GetToken` steps, and sending
-- the subscribe command. Goroutines that the source starts with `go` are tasks of the client.
use centrifuge_go.Prelude.{
  ℕ, ◌+◌, String, Bool, true, false, Option, none, some, ◌==◌, nat_key, ◌&&◌, ◌||◌, not,
  if◌then◌else◌, is_empty,
}
use centrifuge_go.Errors.{GoError, client_closed, other}
use centrifuge_go.Codes.{
  flag_channel_compaction, flag_reject_unrecovered, subscribing_subscribe_called,
}
use centrifuge_go.Effects.{spawn, on_client}
use centrifuge_go.Requests.{send_subscribe}
use centrifuge_go.State.{
  Subscription, Frame, Env, SubscribeRequest, subscribing, is_subscribing, is_unsubscribed,
  is_closed, is_connected, uses_delta, get_state_task, continue_task, resubscribe_task,
  subscribe_cb,
}
use centrifuge_go.Subscription.Transitions.{schedule_resubscribe, queue_subscribing_locked}

abbrev pub set_inflight : Bool → Frame → Frame
set_inflight b f = record f { sub = record (f.sub) { inflight = b } }

-- The request that `continueResubscribe` and `sendSubscribe` build. The position is sent only with
-- `recover`; a zero offset is the field's zero value.
unfoldable pub subscribe_request : String → Subscription → SubscribeRequest
subscribe_request token s = record {
  channel = s.channel;
  recover = s.recover;
  offset = if s.recover then s.offset else 0;
  epoch = if s.recover then s.epoch else "";
  token = token;
  data_bytes = s.data_bytes;
  positioned = s.positioned;
  recoverable = s.recoverable;
  join_leave = s.join_leave;
  flag =
      if s.has_get_state
      then flag_channel_compaction + flag_reject_unrecovered
      else flag_channel_compaction;
  delta = uses_delta s.delta_type;
  tf = s.tags_filter;
}

-- After `sendSubscribe`: on an error the subscribe is not in flight and is retried later.
unfoldable pub subscribe_sent : Env → Option GoError → Frame → Frame
unfolding schedule_resubscribe
subscribe_sent env none f = f
subscribe_sent env (some e) f = schedule_resubscribe env (set_inflight false f)

-- The end of `continueResubscribe`, from its last lock on.
unfoldable pub send_current : Env → String → ℕ → ℕ → Frame → Frame
unfolding subscribe_sent spawn
send_current env token attempt invalidations f =
    let s = f.sub in
    let c = f.client in
    let stopped = set_inflight false f in
    let (c', e) =
      send_subscribe env (subscribe_request token s)
        (subscribe_cb s.address attempt c.conn_generation) c in
    if not (is_subscribing s.state)
    then stopped
    else if not (s.subscribe_attempt == attempt) || not (s.invalidations == invalidations)
    then on_client (spawn (resubscribe_task s.address)) stopped
    else if not c.connected
    then stopped
    else subscribe_sent env e (record f { client = c' })

-- `continueResubscribe(false)`: a token that is missing is fetched on another goroutine.
unfoldable pub continue_sync : Env → Frame → Frame
unfolding spawn
continue_sync env f =
    let s = f.sub in
    if is_empty s.token && s.has_get_token
    then on_client (spawn (continue_task s.address)) f
    else send_current env s.token s.subscribe_attempt s.invalidations f

-- Whether `resubscribe` goes on: still subscribing, no subscribe in flight, connected.
abbrev pub may_resubscribe : Frame → Bool
may_resubscribe f = is_subscribing f.sub.state && (not f.sub.inflight && f.client.connected)

unfoldable pub resubscribe : Env → Frame → Frame
unfolding spawn
resubscribe env f =
    let s = f.sub in
    let f1 = set_inflight true f in
    if may_resubscribe f
    then (if s.has_get_state && not s.recover
        then on_client (spawn (get_state_task s.address)) f1
        else if is_empty s.token && s.has_get_token
        then on_client (spawn (continue_task s.address)) f1
        else continue_sync env f1)
    else f

-- `Subscribe`, for a subscription that `registered` says the client has.
unfoldable pub subscribe : Env → Bool → Frame → Frame × Option GoError
subscribe env registered f =
    let f1 =
      queue_subscribing_locked subscribing_subscribe_called "subscribe called"
        (record f { sub = record (f.sub) { state = subscribing } }) in
    if is_closed f.client.state
    then (f, some client_closed)
    else if not registered
    then (f, some (other "subscription was removed from the client"))
    else if not (is_unsubscribed f.sub.state)
    then (f, none)
    else (if is_connected f.client.state then resubscribe env f1 else f1, none)
