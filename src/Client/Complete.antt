-- ===== src/Client/Complete.antt =====
-- The check of replies: what passes it holds all that its callback reads.
use centrifuge_go.Prelude.{
  String, false, List, [], ◌∷◌, Option, none, some, ◌≡◌, refl, ap, arith, map, inl, inr,
  Option-cases,
}
use centrifuge_go.Errors.{ok}
use centrifuge_go.Protocol.{SubscribeResult, WirePublication}
use centrifuge_go.State.{result_connect, result_subscribe}
use centrifuge_go.Client.{
  Reply, WireResult, WireConnect, has_nil_publication, malformed_result, malformed_subs,
  malformed_reply, present, present_subs, subscribe_result, connect_result, answer,
}

present-all :
    (ps : List (Option WirePublication))
    → has_nil_publication ps ≡ false
    → map some (present ps) ≡ ps
unfolding has_nil_publication present
present-all [] h = refl
present-all (none ∷ ps) h = cc
present-all (some p ∷ ps) h = ap (λ rest. some p ∷ rest) (present-all ps h)

-- The publications of each channel as the wire carries them.
pub sent_pubs :
    List (String × Option (WireResult SubscribeResult))
    → List (String × Option (List (Option WirePublication)))
sent_pubs [] = []
sent_pubs ((channel, none) ∷ subs) = (channel, none) ∷ sent_pubs subs
sent_pubs ((channel, some r) ∷ subs) = (channel, some r.pubs) ∷ sent_pubs subs

-- And as the callback of a connect gets them.
pub read_pubs :
    List (String × SubscribeResult) → List (String × Option (List (Option WirePublication)))
read_pubs [] = []
read_pubs ((channel, r) ∷ subs) = (channel, some (map some r.publications)) ∷ read_pubs subs

read-sent :
    (subs : List (String × Option (WireResult SubscribeResult)))
    → malformed_subs subs ≡ false
    → read_pubs (present_subs subs) ≡ sent_pubs subs
unfolding malformed_subs malformed_result present_subs read_pubs sent_pubs
read-sent [] h = refl
read-sent ((channel, none) ∷ subs) h = cc
read-sent ((channel, some r) ∷ subs) h = ground (arith, present-all r.pubs, read-sent subs, h)

-- A reply without an error that passes the check for a subscribe gives its callback a result, with
-- all the publications of the reply: none of them is a nil pointer.
pub checked_subscribe_lem :
    (r : Reply)
    → r.error ≡ none
    → malformed_reply result_subscribe r ≡ false
    → (x : WireResult SubscribeResult) × (answer r.subscribe r.error ≡ some (ok x))
      × (map some (subscribe_result x).publications ≡ x.pubs)
unfolding malformed_reply malformed_result answer
checked_subscribe_lem r e h = elim (Option-cases r.subscribe) [
  | inl n ↦ ground (arith, n, h)
  | inr (x, n) ↦ (x, ground (arith, n, e), present-all x.pubs (ground (arith, n, h)))
]

-- A reply without an error that passes the check for a connect gives its callback a result, with all
-- the channels of the reply and all their publications: none of them is a nil pointer.
pub checked_connect_lem :
    (r : Reply)
    → r.error ≡ none
    → malformed_reply result_connect r ≡ false
    → (x : WireConnect) × (answer r.connect r.error ≡ some (ok x))
      × (read_pubs (connect_result x).subs ≡ sent_pubs x.wire_subs)
unfolding malformed_reply answer
checked_connect_lem r e h = elim (Option-cases r.connect) [
  | inl n ↦ ground (arith, n, h)
  | inr (x, n) ↦ (x, ground (arith, n, e), read-sent x.wire_subs (ground (arith, n, h)))
]
