-- ===== src/Client/New.antt =====
-- `newClient` and `NewSubscription`: the defaults of the configuration, the endpoints, and the state
-- that a client and a subscription start in.
use Prim.Native.Char.{Char, code}
use centrifuge_go.Prelude.{
  ℕ, ◌*◌, String, Bool, true, false, List, [], ◌∷◌, Option, none, some, ◌==◌, nat_key, ◌&&◌,
  if◌then◌else◌, is_some, length,
}
use centrifuge_go.Errors.{GoError}
use centrifuge_go.Backoff.{second, new_backoff_reconnect}
use centrifuge_go.State.{Client, ClientHandlers, json, protobuf, disconnected, uses_delta}
use centrifuge_go.Subscription.{SubscriptionConfig, make_subscription}
use centrifuge_go.World.{World, update}
use centrifuge_go.Client.Teardown.{new_subscription}

-- The fields of `Config` that have defaults or are copied to the client. Durations are in
-- nanoseconds.
pub record Config : Type 0 where
  pub token : String
  pub has_get_token : Bool
  pub name : String
  pub read_timeout : ℕ
  pub write_timeout : ℕ
  pub handshake_timeout : ℕ
  pub max_server_ping_delay : ℕ
  pub min_reconnect_delay : ℕ
  pub max_reconnect_delay : ℕ

abbrev or_default : ℕ → ℕ → ℕ
or_default d n = if n == 0 then d else n

abbrev or_go : String → String
or_go String.[] = "go"
or_go (String.◌∷◌ c s) = String.◌∷◌ c s

unfoldable pub with_defaults : Config → Config
with_defaults config = record config {
  read_timeout = or_default (5 * second) config.read_timeout;
  write_timeout = or_default second config.write_timeout;
  handshake_timeout = or_default second config.handshake_timeout;
  max_server_ping_delay = or_default (10 * second) config.max_server_ping_delay;
  name = or_go config.name;
}

-- `strings.Split(endpoint, ",")`.
abbrev comma : ℕ
comma = 44

abbrev pub in_front : Char → List String → List String
in_front c [] = String.◌∷◌ c String.[] ∷ []
in_front c (e ∷ endpoints) = String.◌∷◌ c e ∷ endpoints

unfoldable pub split_endpoint : String → List String
split_endpoint String.[] = String.[] ∷ []
split_endpoint (String.◌∷◌ c s) =
    let rest = split_endpoint s in if code c == comma then String.[] ∷ rest else in_front c rest

-- `strings.HasPrefix(e, "ws")`.
unfoldable pub has_ws_prefix : String → Bool
has_ws_prefix (String.◌∷◌ c (String.◌∷◌ d s)) = code c == 119 && code d == 115
has_ws_prefix _ = false

unfoldable pub all_supported : List String → Bool
all_supported [] = true
all_supported (e ∷ endpoints) = has_ws_prefix e && all_supported endpoints

abbrev no_handlers : ClientHandlers
no_handlers = record {
  on_connected = false;
  on_disconnected = false;
  on_connecting = false;
  on_message = false;
  on_error = false;
  on_server_subscribe = false;
  on_server_subscribing = false;
  on_server_unsubscribed = false;
  on_server_publication = false;
  on_server_join = false;
  on_server_leave = false;
}

-- The struct that `newClient` makes.
unfoldable pub initial_client : ℕ → Bool → Config → Client
initial_client endpoints is_protobuf config = record {
  future_id = 0;
  cmd_id = 0;
  endpoints = endpoints;
  round = 0;
  connect_attempt = 0;
  protocol_type = if is_protobuf then protobuf else json;
  has_get_token = config.has_get_token;
  token = config.token;
  transport = none;
  state = disconnected;
  connected = false;
  subs = [];
  server_subs = [];
  subs_by_id = [];
  conn_generation = 0;
  requests = [];
  reconnect_attempts = 0;
  reconnect_strategy = new_backoff_reconnect config.min_reconnect_delay config.max_reconnect_delay;
  handlers = no_handlers;
  send_pong = false;
  close_ch_open = false;
  delay_ping = 0;
  connect_futures = [];
  cb_queue_set = true;
  reconnect_timer = none;
  refresh_timer = none;
  refresh_required = false;
  events = [];
  queue_closed = false;
  tasks = [];
  written = [];
  closed_transports = [];
  results = [];
}

-- `newClient`; `none` is its panic for an endpoint that it does not support. The order of the
-- endpoints, which it shuffles, is not looked at.
unfoldable pub new_client : String → Bool → Config → Option Client
unfolding split_endpoint all_supported
new_client endpoint is_protobuf config =
    let endpoints = split_endpoint endpoint in
    if all_supported endpoints
    then some (initial_client (length endpoints) is_protobuf (with_defaults config))
    else none

-- `NewJsonClient` and `NewProtobufClient`.
unfoldable pub new_json_client : String → Config → Option Client
unfolding new_client
new_json_client endpoint config = new_client endpoint false config

unfoldable pub new_protobuf_client : String → Config → Option Client
unfolding new_client
new_protobuf_client endpoint config = new_client endpoint true config

abbrev pub conflicts : Option SubscriptionConfig → Bool
conflicts none = false
conflicts (some config) = is_some config.tags_filter && uses_delta config.delta_type

-- `NewSubscription`, whose object is allocated at address `a`.
unfoldable pub create_subscription :
    String → Option SubscriptionConfig → ℕ → World → World × Option GoError
create_subscription channel config a w =
    let (c, e) = new_subscription channel (conflicts config) a w.client in
    if is_some e
    then (w, e)
    else (record { client = c; heap = update w.heap a (make_subscription a channel config) }, none)
