-- ===== src/Protocol.antt =====
-- protocol.go, and what the client reads of the messages of the protocol package: publications,
-- client infos and the result of a subscribe. A Go slice that may be nil is a `Slice`.
use centrifuge_go.Prelude.{ℕ, String, Bool, List, Option, none, some, is_nil, if◌then◌else◌}

abbrev pub Bytes : Type 0
Bytes = List ℕ

-- `none` is the nil slice.
abbrev pub Slice : Type 0
Slice = Option Bytes

pub record StreamPosition : Type 0 where
  pub offset : ℕ  -- uint64
  pub epoch : String

-- `protocol.ClientInfo`.
pub record WireInfo : Type 0 where
  pub client : String
  pub user : String
  pub conn_info : Slice
  pub chan_info : Slice

-- `protocol.Publication`.
pub record WirePublication : Type 0 where
  pub offset : ℕ  -- uint64
  pub epoch : String
  pub channel : String
  pub data_bytes : Slice
  pub info : Option WireInfo
  pub tags : List (String × String)
  pub delta : Bool

-- `protocol.SubscribeResult`.
pub record SubscribeResult : Type 0 where
  pub expires : Bool
  pub ttl : ℕ  -- uint32
  pub recoverable : Bool
  pub recovered : Bool
  pub was_recovering : Bool
  pub positioned : Bool
  pub delta : Bool
  pub id : ℕ  -- int64, as a bit pattern
  pub offset : ℕ  -- uint64
  pub epoch : String
  pub data_bytes : Slice
  pub publications : List WirePublication

pub record ClientInfo : Type 0 where
  pub client : String
  pub user : String
  pub conn_info : Slice
  pub chan_info : Slice

pub record Publication : Type 0 where
  pub offset : ℕ
  pub data_bytes : Slice
  pub info : Option ClientInfo
  pub tags : List (String × String)

-- `if x := v.GetX(); len(x) > 0 { info.X = x }`: an empty slice becomes nil.
keep_nonempty : Slice → Slice
keep_nonempty none = none
keep_nonempty (some b) = if is_nil b then none else some b

-- The getters of a nil message return zero values.
unfoldable pub info_from_proto : Option WireInfo → ClientInfo
unfolding keep_nonempty
info_from_proto none = record { client = ""; user = ""; conn_info = none; chan_info = none }
info_from_proto (some v) = record {
  client = v.client;
  user = v.user;
  conn_info = keep_nonempty v.conn_info;
  chan_info = keep_nonempty v.chan_info;
}

publication_info : Option WireInfo → Option ClientInfo
publication_info none = none
publication_info (some v) = some (info_from_proto (some v))

unfoldable pub pub_from_proto : WirePublication → Publication
unfolding publication_info
pub_from_proto p = record {
  offset = p.offset;
  data_bytes = p.data_bytes;
  info = publication_info p.info;
  tags = p.tags;
}
