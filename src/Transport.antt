-- ===== src/Transport.antt =====
-- transport_websocket.go: the reader goroutine, reading, writing and closing, and the translation of
-- a close frame. The connection of gorilla/websocket is the list of what `ReadMessage` returns, and
-- the log of what is done to it; the codecs of the protocol package are parameters.
pub mod Frames
pub mod Reading
use centrifuge_go.Prelude.{
  ℕ, String, Bool, true, false, List, [], ◌∷◌, ◌++◌, Option, none, some, ◌==◌, nat_key, ◌&&◌, ◌||◌,
  not, if◌then◌else◌, ltb, leb, u32,
}
use centrifuge_go.Codes.{
  disconnected_bad_protocol, disconnected_message_size_limit, connecting_transport_closed,
}
use centrifuge_go.Errors.{GoError, Result, ok, err}
use centrifuge_go.Protocol.{Bytes}
use centrifuge_go.State.{Command, Disconnect, ProtocolType, json, protobuf}

-- An error of `ReadMessage`: a `*websocket.CloseError` with its code (an int) and text, or another.
pub data ReadError : Type 0 where
  close_error : ℕ → String → ReadError
  read_error : GoError → ReadError

-- `websocket.CloseMessageTooBig`.
abbrev pub close_message_too_big : ℕ
close_message_too_big = 1009

-- The disconnect for a close frame whose text is no disconnect in JSON.
unfoldable pub disconnect_of_code : ℕ → String → Disconnect
disconnect_of_code code reason =
    let reconnect = ltb code 3500 || (leb 5000 code || (leb 4000 code && ltb code 4500)) in
    if ltb code 3000
    then (if code == close_message_too_big
        then record { code = disconnected_message_size_limit; reason = reason; reconnect = false }
        else record { code = connecting_transport_closed; reason = reason; reconnect = reconnect })
    else record { code = code; reason = reason; reconnect = reconnect }

-- `extractDisconnectWebsocket`; `parse` is `json.Unmarshal` of the text into a disconnect.
unfoldable pub extract_disconnect : (String → Option Disconnect) → ReadError → Option Disconnect
extract_disconnect parse (close_error code text) = elim (parse text) [
  | some d ↦ some d
  | none ↦ some (disconnect_of_code (u32 code) text)
]
extract_disconnect parse (read_error e) = none

-- What is done to the connection.
pub data ConnOp : Type 0 where
  write_close : ConnOp
  close_conn : ConnOp
  set_deadline : ConnOp
  clear_deadline : ConnOp
  write_text write_binary : Bytes → ConnOp

-- `websocketTransport`, over the type of replies. `sent` is what was sent over `reply_ch`, and
-- `ops` the log of the connection; the rest are the fields of the source.
pub record WebsocketTransport {ℓ} (R : Type ℓ) : Type ℓ where
  pub protocol_type : ProtocolType
  pub sent : List R
  pub reply_ch_open : Bool
  pub disconnect : Option Disconnect
  pub closed : Bool
  pub ops : List ConnOp

-- A message as the decoder gives it: its replies, each with whether `closeCh` is chosen when it is
-- to be sent, and whether the decoder ends with EOF, not with another error.
pub record Message {ℓ} (R : Type ℓ) : Type ℓ where
  pub replies : List (Bool × R)
  pub at_eof : Bool

-- What `ReadMessage` returns.
pub data Incoming {ℓ} (R : Type ℓ) : Type ℓ where
  message : Message R → Incoming R
  read_failed : ReadError → Incoming R

abbrev pub decode_failed : Disconnect
decode_failed = record {
  code = disconnected_bad_protocol;
  reason = "decode error";
  reconnect = false;
}

-- The message that `writeData` sends in a protocol.
unfoldable pub frame_of : ProtocolType → Bytes → ConnOp
frame_of json b = write_text b
frame_of protobuf b = write_binary b

module _ {ℓ} {R : Type ℓ} where
  -- `newWebsocketTransport`, once the dial succeeded.
  unfoldable pub new_transport : ProtocolType → WebsocketTransport R
  new_transport type = record {
    protocol_type = type;
    sent = [];
    reply_ch_open = true;
    disconnect = none;
    closed = false;
    ops = [];
  }

  -- `Close`.
  unfoldable pub close_transport : WebsocketTransport R → WebsocketTransport R
  close_transport t =
      if t.closed
      then t
      else record t { closed = true; ops = t.ops ++ (write_close ∷ close_conn ∷ []) }

  -- The deferred calls of the reader.
  unfoldable pub stop_reader : WebsocketTransport R → WebsocketTransport R
  stop_reader t = close_transport (record t { reply_ch_open = false })

  -- The loop over the replies of a message: whether the reader goes on, and what it sent.
  unfoldable pub send_replies : List (Bool × R) → WebsocketTransport R → Bool × WebsocketTransport R
  send_replies [] t = (true, t)
  send_replies ((closing, r) ∷ replies) t =
      let rest = send_replies replies (record t { sent = t.sent ++ (r ∷ []) }) in
      if closing then (false, t) else rest

  -- `reader`. It waits for ever when nothing more comes in.
  unfoldable pub reader :
      (String → Option Disconnect) → List (Incoming R) → WebsocketTransport R → WebsocketTransport R
  reader parse [] t = t
  reader parse (read_failed e ∷ rest) t =
      stop_reader (record t { disconnect = extract_disconnect parse e })
  reader parse (message m ∷ rest) t =
      let (goes_on, t1) = send_replies m.replies t in
      let last = reader parse rest t1 in
      if not goes_on
      then stop_reader t1
      else if m.at_eof
      then last
      else stop_reader (record t1 { disconnect = some decode_failed })

  -- `writeData`, with what `WriteMessage` returns.
  unfoldable pub write_data :
      Bytes → ℕ → Option GoError → WebsocketTransport R → WebsocketTransport R × Option GoError
  write_data b timeout e t =
      let before = if ltb 0 timeout then set_deadline ∷ [] else [] in
      let after = if ltb 0 timeout then clear_deadline ∷ [] else [] in
      (record t { ops = t.ops ++ (before ++ (frame_of t.protocol_type b ∷ after)) }, e)

  -- `Write`; `encode` is the command encoder.
  unfoldable pub write :
      (Command → Result Bytes)
      → Command
      → ℕ
      → Option GoError
      → WebsocketTransport R
      → WebsocketTransport R × Option GoError
  write encode cmd timeout e t = elim (encode cmd) [
    | err x ↦ (t, some x)
    | ok b ↦ write_data b timeout e t
  ]

-- What `Read` returns: a reply, or the end with the disconnect.
pub data ReadOutcome {ℓ} (R : Type ℓ) : Type ℓ where
  got : R → ReadOutcome R
  ended : Option Disconnect → ReadOutcome R

-- What successive calls of `Read` return once the reader has stopped.
unfoldable pub reads {ℓ} : {R : Type ℓ} → List R → Option Disconnect → List (ReadOutcome R)
reads [] d = ended d ∷ []
reads (r ∷ rs) d = got r ∷ reads rs d
