-- ===== src/Subscription/Stream.antt =====
-- Decoding a stream of delta publications: what the server encoded comes out.
use centrifuge_go.Prelude.{
  Bool, true, false, List, [], ◌∷◌, some, ◌≡◌, refl, arith, if◌then◌else◌, ◌&&◌,
}
use centrifuge_go.Errors.{ok}
use centrifuge_go.Protocol.{Bytes, Slice, WirePublication, Publication, pub_from_proto}
use centrifuge_go.State.{Subscription, Env, ProtocolType, json, protobuf}
use centrifuge_go.Subscription.{
  apply_delta_locked, apply_at, apply_json, apply_protobuf, decoded, applied, add_event,
  apply_recovered,
}

-- The data as the server puts it on the wire.
on_wire : (Bytes → Slice) → ProtocolType → Bytes → Slice
on_wire quote json b = quote b
on_wire quote protobuf b = some b

-- The publication that the server sends for `d`, as a delta against `base` or as it is.
encode :
    (Bytes → Slice)
    → (Bytes → Bytes → Bytes)
    → ProtocolType
    → Bytes
    → Bool
    → Bytes
    → WirePublication
    → WirePublication
unfolding on_wire
encode quote create type base as_delta d p = record p {
  delta = as_delta;
  data_bytes = on_wire quote type (if as_delta then create base d else d);
}

-- The data of each publication, with the envelope it is sent in.
abbrev pub Sent : Type 0
Sent = Bool × Bytes × WirePublication

unfoldable pub stream :
    (Bytes → Slice)
    → (Bytes → Bytes → Bytes)
    → ProtocolType
    → Bytes
    → List Sent
    → List WirePublication
unfolding encode
stream quote create type base [] = []
stream quote create type base ((as_delta, d, p) ∷ rest) =
    encode quote create type base as_delta d p ∷ stream quote create type d rest

unfoldable pub last_base : Bytes → List Sent → Bytes
last_base base [] = base
last_base base ((as_delta, d, p) ∷ rest) = last_base d rest

-- Each publication with the event that the application is to get.
unfoldable pub events :
    (Bytes → Slice)
    → (Bytes → Bytes → Bytes)
    → ProtocolType
    → Bytes
    → List Sent
    → List (WirePublication × Publication)
unfolding encode
events quote create type base [] = []
events quote create type base ((as_delta, d, p) ∷ rest) =
    (encode quote create type base as_delta d p, record (pub_from_proto p) { data_bytes = some d })
    ∷ events quote create type d rest

-- What is sent for `d`: the delta, or the data.
abbrev payload : (Bytes → Bytes → Bytes) → Bytes → Bool → Bytes → Bytes
payload create base as_delta d = if as_delta then create base d else d

-- Whether all that is sent can be quoted: JSON quotes text only, protobuf quotes nothing.
unfoldable pub is_quotable :
    (Bytes → Bool) → (Bytes → Bytes → Bytes) → ProtocolType → Bytes → List Sent → Bool
is_quotable is_text create protobuf base sent = true
is_quotable is_text create json base [] = true
is_quotable is_text create json base ((as_delta, d, p) ∷ rest) =
    is_text (payload create base as_delta d) && is_quotable is_text create json d rest

apply-encode :
    (env : Env) (quote : Bytes → Slice) (create : Bytes → Bytes → Bytes) (type : ProtocolType)
    (base d : Bytes) (as_delta : Bool) (p : WirePublication) (s : Subscription)
    → ((type ≡ json)
        → env.unmarshal_string (quote (payload create base as_delta d))
          ≡ some (payload create base as_delta d))
    → ((b n : Bytes) → env.apply_delta (some b) (some (create b n)) ≡ some (some n))
    → s.delta_negotiated ≡ true
    → s.prev_data ≡ some base
    → apply_delta_locked env type
        (encode quote create type base as_delta d p)
        (pub_from_proto (encode quote create type base as_delta d p))
        s
      ≡ ok (record s { prev_data = some d }, record (pub_from_proto p) { data_bytes = some d })
unfolding apply_delta_locked apply_at apply_json apply_protobuf decoded encode on_wire
    pub_from_proto
apply-encode env quote create json base d true p s q a n b = ground (arith, q refl, a base d)
apply-encode env quote create json base d false p s q a n b = ground (arith, q refl)
apply-encode env quote create protobuf base d true p s q a n b = ground (arith, a base d)
apply-encode env quote create protobuf base d false p s q a n b = ground arith

apply_recovered-cons :
    (env : Env) (type : ProtocolType) (p : WirePublication) (ps : List WirePublication)
    (s s' t : Subscription) (event : Publication) (pairs : List (WirePublication × Publication))
    → apply_delta_locked env type p (pub_from_proto p) s ≡ ok (s', event)
    → apply_recovered env type ps s' ≡ applied t pairs
    → apply_recovered env type (p ∷ ps) s ≡ applied t ((p, event) ∷ pairs)
unfolding apply_recovered add_event
apply_recovered-cons env type p ps s s' t event pairs h k = ground (arith, h, k)

quotable-cons :
    (is_text : Bytes → Bool) (create : Bytes → Bytes → Bytes) (type : ProtocolType) (base d : Bytes)
    (as_delta : Bool) (p : WirePublication) (rest : List Sent)
    → is_quotable is_text create type base ((as_delta, d, p) ∷ rest) ≡ true
    → ((type ≡ json → is_text (payload create base as_delta d) ≡ true))
      × (is_quotable is_text create type d rest ≡ true)
unfolding is_quotable
quotable-cons is_text create json base d as_delta p rest h =
    ((λ e. ground (arith, h)), ground (arith, h))
quotable-cons is_text create protobuf base d as_delta p rest h = ((λ e. ground (arith, e)), refl)

-- What the server encoded comes out: when deltas are negotiated, the base is the one the server
-- encoded the first delta against, `fdelta.Apply` undoes the server's encoder, and, with JSON, what
-- is sent is text and `json.Unmarshal` undoes the quoting of text, then the recovered publications,
-- each sent as a delta or as it is, give the events with the original data, in order, and leave the
-- last data as the next base.
pub apply_recovered-stream :
    (env : Env) (quote : Bytes → Slice) (is_text : Bytes → Bool) (create : Bytes → Bytes → Bytes)
    (type : ProtocolType) (base : Bytes) (sent : List Sent) (s : Subscription)
    → ((b : Bytes) → is_text b ≡ true → env.unmarshal_string (quote b) ≡ some b)
    → is_quotable is_text create type base sent ≡ true
    → ((b n : Bytes) → env.apply_delta (some b) (some (create b n)) ≡ some (some n))
    → s.delta_negotiated ≡ true
    → s.prev_data ≡ some base
    → apply_recovered env type (stream quote create type base sent) s
      ≡ applied
          (record s { prev_data = some (last_base base sent) })
          (events quote create type base sent)
unfolding apply_recovered stream events last_base
apply_recovered-stream env quote is_text create type base [] s q c a n b = cc
apply_recovered-stream env quote is_text create type base ((as_delta, d, p) ∷ rest) s q c a n b =
    let next = record s { prev_data = some d } in
    let quotable = quotable-cons is_text create type base d as_delta p rest c in
    apply_recovered-cons env type (encode quote create type base as_delta d p)
      (stream quote create type d rest) s next (record s { prev_data = some (last_base d rest) })
      (record (pub_from_proto p) { data_bytes = some d }) (events quote create type d rest)
      (apply-encode env quote create type base d as_delta p s
        (λ e. q (payload create base as_delta d) (quotable.0 e)) a n b)
      (apply_recovered-stream env quote is_text create type d rest next q quotable.1 a n refl)
