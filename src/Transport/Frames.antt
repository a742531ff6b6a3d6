-- ===== src/Transport/Frames.antt =====
-- What a close frame of the server becomes.
use centrifuge_go.Prelude.{
  ℕ, ◌≤◌, ◌<◌, String, false, Option, none, some, ◌≡◌, ◌≢◌, ◌⊎◌, arith, nat_key,
}
use centrifuge_go.Codes.{connecting_transport_closed, disconnected_message_size_limit}
use centrifuge_go.State.{Disconnect}
use centrifuge_go.Client.{reconnects}
use centrifuge_go.Transport.{
  close_error, extract_disconnect, disconnect_of_code, close_message_too_big,
}

-- A close frame whose text is no disconnect in JSON. With a code from 3000 on it becomes the same
-- disconnect as a disconnect push with that code and reason; with a smaller one, which the websocket
-- protocol owns, the code is hidden, and only a message that is too big ends the connection for good.
pub extract_disconnect_lem :
    (parse : String → Option Disconnect) (code : ℕ) (text : String)
    → parse text ≡ none
    → code < 4294967296
    → ((3000 ≤ code)
        × (extract_disconnect parse (close_error code text)
            ≡ some (record { code = code; reason = text; reconnect = reconnects code })))
      ⊎ ((code < 3000)
          × (code ≢ close_message_too_big)
          × (extract_disconnect parse (close_error code text)
              ≡ some (record {
                code = connecting_transport_closed;
                reason = text;
                reconnect = reconnects code;
              })))
      ⊎ ((code ≡ close_message_too_big)
          × (extract_disconnect parse (close_error code text)
              ≡ some (record {
                code = disconnected_message_size_limit;
                reason = text;
                reconnect = false;
              })))
unfolding extract_disconnect disconnect_of_code reconnects
extract_disconnect_lem parse code text h bound = ground (arith, h, bound)
