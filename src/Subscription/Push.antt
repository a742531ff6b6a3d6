-- ===== src/Subscription/Push.antt =====
-- Pushes of the server for one subscription: publications, join and leave, unsubscribe, and the
-- invalidation of its state.
use centrifuge_go.Prelude.{
  ℕ, ◌+◌, String, Option, none, some, not, if◌then◌else◌, ltb, u64, ◌==◌, nat_key,
}
use centrifuge_go.Errors.{GoError, subscription_unsubscribed, ok, err, other}
use centrifuge_go.Codes.{unsubscribed_state_invalidated, state_invalidated_epoch}
use centrifuge_go.Protocol.{WireInfo, WirePublication, info_from_proto, pub_from_proto}
use centrifuge_go.Effects.{notify, on_client}
use centrifuge_go.State.{
  Subscription, Frame, Env, is_subscribed, uses_delta, on_publication, on_join, on_leave,
}
use centrifuge_go.Subscription.Delta.{apply_delta_locked, adopt_position}
use centrifuge_go.Subscription.Transitions.{
  clear_push_id, send_unsubscribe_locked, move_to_unsubscribed_locked, move_to_subscribing_locked,
}
use centrifuge_go.Subscription.Resubscribe.{resubscribe}

-- The second part is a broken delta, as of `move_to_subscribed`.
unfoldable pub handle_publication : Env → WirePublication → Frame → Frame × Option (ℕ × GoError)
handle_publication env p f =
    if not (is_subscribed f.sub.state)
    then (f, none)
    else elim (apply_delta_locked env f.client.protocol_type p (pub_from_proto p) f.sub) [
      | err e ↦ (f, some (p.offset, e))
      | ok (s, event) ↦ (
        on_client (notify s.handlers.on_publication (on_publication s.channel event))
            (record f { sub = adopt_position p s }),
        none,
      )
    ]

unfoldable pub handle_join : Option WireInfo → Frame → Frame
handle_join info f =
    if is_subscribed f.sub.state
    then on_client (notify f.sub.handlers.on_join (on_join f.sub.channel (info_from_proto info))) f
    else f

unfoldable pub handle_leave : Option WireInfo → Frame → Frame
handle_leave info f =
    if is_subscribed f.sub.state
    then on_client (notify f.sub.handlers.on_leave (on_leave f.sub.channel (info_from_proto info)))
        f
    else f

unfoldable pub invalidate_state : Frame → Frame
unfolding clear_push_id
invalidate_state f =
    let f1 = clear_push_id f in
    let s = f1.sub in
    record f1 {
      sub = record s {
        token = if s.has_get_token then "" else s.token;
        invalidations = u64 (s.invalidations + 1);
        offset = 0;
        epoch = state_invalidated_epoch;
        prev_data = none;
      };
    }

-- An unsubscribe push below 2500 is final; the others lead to a resubscribe.
unfoldable pub handle_unsubscribe : Env → ℕ → String → Frame → Frame
handle_unsubscribe env code reason f =
    if ltb code 2500
    then move_to_unsubscribed_locked code reason subscription_unsubscribed
        (if f.sub.inflight then send_unsubscribe_locked env f else f)
    else resubscribe env (
        move_to_subscribing_locked code reason
          (if code == unsubscribed_state_invalidated then invalidate_state f else f))

-- `SetTagsFilter`.
unfoldable pub set_tags_filter : Option ℕ → Subscription → Subscription × Option GoError
set_tags_filter none s = (record s { tags_filter = none }, none)
set_tags_filter (some t) s =
    if uses_delta s.delta_type
    then (s, some (other "cannot use delta and tags filter together"))
    else (record s { tags_filter = some t }, none)
