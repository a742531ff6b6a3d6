-- ===== src/State/Kinds.antt =====
-- `State` of client.go, `SubState` and `DeltaType` of subscription.go, and tests on them.
use centrifuge_go.Prelude.{Bool, true, false}

pub data State : Type 0 where
  disconnected connecting connected closed : State

pub data SubState : Type 0 where
  unsubscribed subscribing subscribed : SubState

pub data DeltaType : Type 0 where
  delta_none delta_fossil : DeltaType

pub data ProtocolType : Type 0 where
  json protobuf : ProtocolType

abbrev pub is_disconnected : State → Bool
is_disconnected disconnected = true
is_disconnected _ = false

abbrev pub is_connecting : State → Bool
is_connecting connecting = true
is_connecting _ = false

abbrev pub is_connected : State → Bool
is_connected connected = true
is_connected _ = false

abbrev pub is_closed : State → Bool
is_closed closed = true
is_closed _ = false

abbrev pub is_unsubscribed : SubState → Bool
is_unsubscribed unsubscribed = true
is_unsubscribed _ = false

abbrev pub is_subscribing : SubState → Bool
is_subscribing subscribing = true
is_subscribing _ = false

abbrev pub is_subscribed : SubState → Bool
is_subscribed subscribed = true
is_subscribed _ = false

abbrev pub is_json : ProtocolType → Bool
is_json json = true
is_json protobuf = false

abbrev pub uses_delta : DeltaType → Bool
uses_delta delta_none = false
uses_delta delta_fossil = true
