-- ===== src/Subscription/Refresh.antt =====
-- The refresh of a subscription token, for the subscribed session that armed it.
use centrifuge_go.Prelude.{
  ℕ, String, Bool, none, some, ◌==◌, nat_key, ◌&&◌, not, if◌then◌else◌, is_empty,
}
use centrifuge_go.Errors.{
  Result, ok, err, subscription_unsubscribed, sub_refresh_error, is_unauthorized, as_server_error,
}
use centrifuge_go.Codes.{unsubscribed_unauthorized}
use centrifuge_go.Effects.{on_client}
use centrifuge_go.Requests.{send_ignoring_error}
use centrifuge_go.State.{Frame, Env, is_subscribed, sub_refresh_req, sub_refresh_cb}
use centrifuge_go.Subscription.Transitions.{send_unsubscribe_locked, move_to_unsubscribed_locked}
use centrifuge_go.Subscription.Failure.{TokenCall, emit_error}
use centrifuge_go.Subscription.Reply.{schedule_sub_refresh}

abbrev pub is_refresh_current : ℕ → ℕ → Frame → Bool
is_refresh_current session invalidations f =
    is_subscribed f.sub.state
    && ((f.sub.subscribed_session == session) && (f.sub.invalidations == invalidations))

unfoldable pub unsubscribe_if_refresh_current : Env → ℕ → ℕ → ℕ → String → Frame → Frame
unsubscribe_if_refresh_current env session invalidations code reason f =
    if is_refresh_current session invalidations f
    then move_to_unsubscribed_locked code reason subscription_unsubscribed
        (send_unsubscribe_locked env f)
    else f

-- `if s.subscribedSession == session { s.scheduleSubRefresh(ttl) }`.
unfoldable pub rearm : ℕ → ℕ → Frame → Frame
unfolding schedule_sub_refresh
rearm session ttl f =
    if f.sub.subscribed_session == session
    then record f { sub = schedule_sub_refresh ttl f.sub }
    else f

-- `refresh` after `GetToken` returned.
unfoldable pub refresh_token_received :
    Env → (Frame → Frame) → Result String → ℕ → ℕ → Frame → Frame
unfolding rearm
refresh_token_received env handled (err e) session invalidations f =
    if is_unauthorized e
    then unsubscribe_if_refresh_current env session invalidations unsubscribed_unauthorized
        "unauthorized" f
    else rearm session 10 (handled (emit_error (sub_refresh_error e) f))
refresh_token_received env handled (ok token) session invalidations f =
    if is_empty token
    then unsubscribe_if_refresh_current env session invalidations unsubscribed_unauthorized
        "unauthorized" f
    else on_client
        (send_ignoring_error env (sub_refresh_req f.sub.channel token)
          (sub_refresh_cb f.sub.address session invalidations))
        (record f { sub = record (f.sub) { token = token } })

unfoldable pub refresh : Env → TokenCall → ℕ → Frame → Frame
refresh env call session f =
    let invalidations = f.sub.invalidations in
    let g = call.meanwhile f in
    if not (is_refresh_current session invalidations f)
    then f
    else if not (is_refresh_current session invalidations g)
    then g
    else refresh_token_received env call.handled call.reply session invalidations g

-- The callback of `sendSubRefresh`: the reply says whether the token expires, and its ttl.
unfoldable pub refresh_replied : Env → (Frame → Frame) → Result (Bool × ℕ) → ℕ → ℕ → Frame → Frame
unfolding rearm
refresh_replied env handled (err e) session invalidations f =
    let f1 = handled (emit_error (sub_refresh_error e) f) in
    if not (is_refresh_current session invalidations f) then f else elim (as_server_error e) [
      | none ↦ rearm session 10 f1
      | some se ↦
          if se.temporary
          then rearm session 10 f1
          else unsubscribe_if_refresh_current env session invalidations se.code se.message f1
    ]
refresh_replied env handled (ok (expires, ttl)) session invalidations f =
    if not (is_refresh_current session invalidations f)
    then f
    else if expires
    then rearm session ttl f
    else f
