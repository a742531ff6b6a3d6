-- ===== src/Subscription/Staleness.antt =====
-- Outdated replies, errors and answers: what a subscription does with a result that was asked for
-- before it was unsubscribed, torn down or invalidated.
use centrifuge_go.Prelude.{ℕ, String, true, false, ◌≡◌, ◌≢◌, ◌⊎◌, arith, nat_key}
use centrifuge_go.Errors.{ok}
use centrifuge_go.Protocol.{SubscribeResult}
use centrifuge_go.State.{Subscription, Frame, Env, subscribing, subscribed}
use centrifuge_go.Subscription.{
  set_inflight, schedule_resubscribe, resubscribe, continue_sync, send_current, move_to_subscribed,
  subscribe_replied,
}

-- What a subscription holds apart from its timers, counters and the in-flight flag.
pub record Agrees (s t : Subscription) : Type 0 where
  pub state : s.state ≡ t.state
  pub offset : s.offset ≡ t.offset
  pub epoch : s.epoch ≡ t.epoch
  pub recover : s.recover ≡ t.recover
  pub token : s.token ≡ t.token
  pub push_id : s.push_id ≡ t.push_id
  pub prev_data : s.prev_data ≡ t.prev_data
  pub waiting : s.sub_futures ≡ t.sub_futures
  pub session : s.subscribed_session ≡ t.subscribed_session
  pub attempt : s.subscribe_attempt ≡ t.subscribe_attempt

send_current-Agrees :
    (env : Env) (token : String) (attempt invalidations : ℕ) (f : Frame)
    → Agrees (send_current env token attempt invalidations f).sub f.sub
unfolding send_current
send_current-Agrees env token attempt invalidations f = ground arith

pub resubscribe-Agrees : (env : Env) (f : Frame) → Agrees (resubscribe env f).sub f.sub
unfolding resubscribe continue_sync
resubscribe-Agrees env f = ground (
  arith,
  send_current-Agrees env f.sub.token f.sub.subscribe_attempt f.sub.invalidations
      (set_inflight true f),
)

-- A reply to a subscribe of an older attempt, or of a connected session that has ended, changes
-- neither the state, the position, the token, the delta base, the channel id nor the waiting calls.
pub stale_reply_changes_nothing :
    (env : Env) (handled : Frame → Frame) (r : SubscribeResult) (attempt generation : ℕ) (f : Frame)
    → (f.sub.subscribe_attempt ≢ attempt) ⊎ (f.client.conn_generation ≢ generation)
    → Agrees (subscribe_replied env handled (ok r) attempt generation f).0.sub f.sub
unfolding subscribe_replied move_to_subscribed schedule_resubscribe
stale_reply_changes_nothing env handled r attempt generation f h =
    ground (arith, resubscribe-Agrees env (set_inflight false f))

-- A reply makes a subscription subscribed only if it was subscribing, with the attempt and in the
-- connected session in which the subscribe was sent.
pub subscribed_needs_current_reply :
    (env : Env) (handled : Frame → Frame) (r : SubscribeResult) (attempt generation : ℕ) (f : Frame)
    → f.sub.state ≢ subscribed
    → (subscribe_replied env handled (ok r) attempt generation f).0.sub.state ≡ subscribed
    → (f.sub.state ≡ subscribing)
      × (f.sub.subscribe_attempt ≡ attempt)
      × (f.client.conn_generation ≡ generation)
unfolding subscribe_replied move_to_subscribed schedule_resubscribe
subscribed_needs_current_reply env handled r attempt generation f n h =
    ground (arith, resubscribe-Agrees env (set_inflight false f))
