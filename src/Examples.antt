-- ===== src/Examples.antt =====
-- A client with one subscription, as `newClient` and `NewSubscription` leave them and later on, at
-- which the theorems are applied.
mod Subscriptions
mod Clients
mod Queues
mod Runs
mod Frames
use centrifuge_go.Prelude.{ℕ, String, Bool, true, false, List, [], ◌∷◌, Option, none, some}
use centrifuge_go.Errors.{Result, ok, err}
use centrifuge_go.Backoff.{BackoffReconnect, new_backoff_reconnect}
use centrifuge_go.Calls.{Context}
use centrifuge_go.Protocol.{Bytes, Slice, SubscribeResult, WirePublication}
use centrifuge_go.State.{
  Client, Subscription, Frame, Env, State, SubState, SubHandlers, ClientHandlers, Call, Timer,
  disconnected, connected, connecting, unsubscribed, subscribing, subscribed, protobuf, delta_none,
  delta_fossil, history_req,
}
use centrifuge_go.World.{World}

-- A network that takes every command, and a delta that is the whole new data.
abbrev pub env : Env
env = record {
  write_ok = λ t cmd. true;
  for_attempt = λ r attempt. r.min_delay;
  unmarshal_string = λ b. b;
  apply_delta = λ base delta. some delta;
}

abbrev pub no_context : Context
no_context call = none

abbrev pub all_sub_handlers : SubHandlers
all_sub_handlers = record {
  on_subscribing = true;
  on_subscribed = true;
  on_unsubscribed = true;
  on_publication = true;
  on_join = true;
  on_leave = true;
  on_error = true;
}

abbrev pub all_handlers : ClientHandlers
all_handlers = record {
  on_connected = true;
  on_disconnected = true;
  on_connecting = true;
  on_message = true;
  on_error = true;
  on_server_subscribe = true;
  on_server_subscribing = true;
  on_server_unsubscribed = true;
  on_server_publication = true;
  on_server_join = true;
  on_server_leave = true;
}

abbrev pub strategy : BackoffReconnect
strategy = record { factor = 2; jitter = true; min_delay = 200000000; max_delay = 20000000000 }

abbrev pub new_sub : Subscription
new_sub = record {
  address = 1;
  future_id = 0;
  channel = "news";
  state = unsubscribed;
  handlers = all_sub_handlers;
  offset = 0;
  epoch = "";
  recover = false;
  sub_futures = [];
  data_bytes = none;
  positioned = true;
  recoverable = true;
  join_leave = false;
  token = "";
  has_get_token = true;
  has_get_state = false;
  resubscribe_attempts = 0;
  resubscribe_strategy = strategy;
  resubscribe_timer = none;
  refresh_timer = none;
  delta_type = delta_fossil;
  delta_negotiated = false;
  prev_data = none;
  tags_filter = none;
  push_id = 0;
  inflight = false;
  subscribe_attempt = 0;
  invalidations = 0;
  subscribed_session = 0;
}

abbrev pub a_call : Call
a_call = record {
  ticket = 1;
  request = history_req "news" (record { limit = 10; since = none; reverse = false });
}

-- A subscribe of attempt 3 is in flight, and a call waits.
abbrev pub waiting_sub : Subscription
waiting_sub = record new_sub {
  state = subscribing;
  inflight = true;
  token = "t1";
  subscribe_attempt = 3;
  future_id = 1;
  sub_futures = (1, a_call) ∷ [];
}

-- The sixth subscribed session, at offset 40, with channel id 7 and an armed refresh.
abbrev pub live_sub : Subscription
live_sub = record new_sub {
  state = subscribed;
  token = "t1";
  subscribe_attempt = 3;
  subscribed_session = 6;
  recover = true;
  offset = 40;
  epoch = "e";
  push_id = 7;
  delta_negotiated = true;
  prev_data = some (1 ∷ 2 ∷ []);
  refresh_timer = some (record { delay = 60000000000; key = 6; armed = true });
}

abbrev pub new_client : Client
new_client = record {
  future_id = 0;
  cmd_id = 0;
  endpoints = 1;
  round = 0;
  connect_attempt = 0;
  protocol_type = protobuf;
  has_get_token = true;
  token = "";
  transport = none;
  state = disconnected;
  connected = false;
  subs = ("news", 1) ∷ [];
  server_subs = [];
  subs_by_id = [];
  conn_generation = 0;
  requests = [];
  reconnect_attempts = 0;
  reconnect_strategy = strategy;
  handlers = all_handlers;
  send_pong = false;
  close_ch_open = false;
  delay_ping = 0;
  connect_futures = [];
  cb_queue_set = true;
  reconnect_timer = none;
  refresh_timer = none;
  refresh_required = false;
  events = [];
  queue_closed = false;
  tasks = [];
  written = [];
  closed_transports = [];
  results = [];
}

-- Connected in attempt 2 on transport 5, in the connected session 4.
abbrev pub live_client : Client
live_client = record new_client {
  state = connected;
  connected = true;
  transport = some 5;
  connect_attempt = 2;
  conn_generation = 4;
  cmd_id = 9;
  token = "c1";
  subs_by_id = (7, 1) ∷ [];
  close_ch_open = true;
}

-- In attempt 2, with a call that waits for the connection.
abbrev pub dialing_client : Client
dialing_client = record new_client {
  state = connecting;
  connect_attempt = 2;
  conn_generation = 4;
  refresh_required = true;
  close_ch_open = true;
  future_id = 1;
  connect_futures = (1, a_call) ∷ [];
}

abbrev pub live : World
live = record { client = live_client; heap = λ a. live_sub }

abbrev pub dialing : World
dialing = record { client = dialing_client; heap = λ a. new_sub }

abbrev pub a_reply : SubscribeResult
a_reply = record {
  expires = true;
  ttl = 60;
  recoverable = true;
  recovered = true;
  was_recovering = true;
  positioned = true;
  delta = true;
  id = 7;
  offset = 41;
  epoch = "e";
  data_bytes = none;
  publications = [];
}

abbrev pub a_publication : WirePublication
a_publication = record {
  offset = 41;
  epoch = "e";
  channel = "";
  data_bytes = some (3 ∷ []);
  info = none;
  tags = [];
  delta = false;
}
