-- ===== src/Codes.antt =====
-- codes.go: disconnect, connecting, subscribing and unsubscribed codes, subscription flags, and the
-- codes with which the server reports an unrecoverable position and an invalidated state.
use centrifuge_go.Prelude.{ℕ, String}

abbrev pub disconnected_disconnect_called : ℕ
disconnected_disconnect_called = 0

abbrev pub disconnected_unauthorized : ℕ
disconnected_unauthorized = 1

abbrev pub disconnected_bad_protocol : ℕ
disconnected_bad_protocol = 2

abbrev pub disconnected_message_size_limit : ℕ
disconnected_message_size_limit = 3

abbrev pub disconnected_state_invalidated : ℕ
disconnected_state_invalidated = 3014

abbrev pub connecting_connect_called : ℕ
connecting_connect_called = 0

abbrev pub connecting_transport_closed : ℕ
connecting_transport_closed = 1

abbrev pub connecting_no_ping : ℕ
connecting_no_ping = 2

abbrev pub connecting_subscribe_timeout : ℕ
connecting_subscribe_timeout = 3

abbrev pub connecting_unsubscribe_error : ℕ
connecting_unsubscribe_error = 4

abbrev pub subscribing_subscribe_called : ℕ
subscribing_subscribe_called = 0

abbrev pub subscribing_transport_closed : ℕ
subscribing_transport_closed = 1

abbrev pub unsubscribed_unsubscribe_called : ℕ
unsubscribed_unsubscribe_called = 0

abbrev pub unsubscribed_unauthorized : ℕ
unsubscribed_unauthorized = 1

abbrev pub unsubscribed_client_closed : ℕ
unsubscribed_client_closed = 2

abbrev pub unsubscribed_state_invalidated : ℕ
unsubscribed_state_invalidated = 2502

-- The bits of the `Flag` of a subscribe request.
abbrev pub flag_channel_compaction : ℕ
flag_channel_compaction = 1

abbrev pub flag_reject_unrecovered : ℕ
flag_reject_unrecovered = 2

abbrev pub error_unrecoverable_position : ℕ
error_unrecoverable_position = 112

-- "Token expired", written as a literal in the source.
abbrev pub error_token_expired : ℕ
error_token_expired = 109

abbrev pub state_invalidated_epoch : String
state_invalidated_epoch = "_"
