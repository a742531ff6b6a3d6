-- ===== src/Subscription/New.antt =====
-- `newSubscription`, and the options it copies.
use centrifuge_go.Prelude.{ℕ, String, Bool, false, [], Option, none, some}
use centrifuge_go.Backoff.{new_backoff_reconnect}
use centrifuge_go.Protocol.{Slice}
use centrifuge_go.State.{Subscription, SubHandlers, DeltaType, delta_none, unsubscribed}

-- `SubscriptionConfig`. A tags filter is an address, and of the two functions it matters here
-- whether they are set.
pub record SubscriptionConfig : Type 0 where
  pub data_bytes : Slice
  pub token : String
  pub has_get_token : Bool
  pub positioned : Bool
  pub recoverable : Bool
  pub join_leave : Bool
  pub delta_type : DeltaType
  pub tags_filter : Option ℕ
  pub min_resubscribe_delay : ℕ
  pub max_resubscribe_delay : ℕ
  pub has_get_state : Bool

abbrev no_handlers : SubHandlers
no_handlers = record {
  on_subscribing = false;
  on_subscribed = false;
  on_unsubscribed = false;
  on_publication = false;
  on_join = false;
  on_leave = false;
  on_error = false;
}

-- Without a configuration: the struct with its zero values, and the default delays.
unfoldable pub bare_subscription : ℕ → String → ℕ → ℕ → Subscription
bare_subscription a channel min_delay max_delay = record {
  address = a;
  future_id = 0;
  channel = channel;
  state = unsubscribed;
  handlers = no_handlers;
  offset = 0;
  epoch = "";
  recover = false;
  sub_futures = [];
  data_bytes = none;
  positioned = false;
  recoverable = false;
  join_leave = false;
  token = "";
  has_get_token = false;
  has_get_state = false;
  resubscribe_attempts = 0;
  resubscribe_strategy = new_backoff_reconnect min_delay max_delay;
  resubscribe_timer = none;
  refresh_timer = none;
  delta_type = delta_none;
  delta_negotiated = false;
  prev_data = none;
  tags_filter = none;
  push_id = 0;
  inflight = false;
  subscribe_attempt = 0;
  invalidations = 0;
  subscribed_session = 0;
}

-- `newSubscription`, for the object at address `a`.
unfoldable pub make_subscription : ℕ → String → Option SubscriptionConfig → Subscription
unfolding bare_subscription
make_subscription a channel none = bare_subscription a channel 0 0
make_subscription a channel (some config) =
    record (bare_subscription a channel config.min_resubscribe_delay config.max_resubscribe_delay) {
      token = config.token;
      has_get_token = config.has_get_token;
      data_bytes = config.data_bytes;
      positioned = config.positioned;
      recoverable = config.recoverable;
      join_leave = config.join_leave;
      delta_type = config.delta_type;
      tags_filter = config.tags_filter;
      has_get_state = config.has_get_state;
    }
