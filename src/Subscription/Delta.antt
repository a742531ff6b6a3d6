-- ===== src/Subscription/Delta.antt =====
-- Delta compression and positions: `applyDeltaLocked`, and the rule by which a publication moves
-- the position of a subscription.
use centrifuge_go.Prelude.{
  ℕ, List, [], ◌∷◌, none, some, ◌&&◌, not, if◌then◌else◌, ltb, is_empty, is_some, ◌≡◌, refl, ◌⊎◌,
  inl, inr,
}
use centrifuge_go.Errors.{GoError, other, Result, ok, err}
use centrifuge_go.Protocol.{Slice, WirePublication, Publication, pub_from_proto}
use centrifuge_go.State.{Subscription, Env, ProtocolType, json, protobuf}

-- `event.Data = d; s.prevData = d`.
unfoldable pub decoded : Slice → Publication → Subscription → Result (Subscription × Publication)
decoded d event s = ok (record s { prev_data = d }, record event { data_bytes = d })

unfoldable pub apply_json :
    Env → WirePublication → Publication → Subscription → Result (Subscription × Publication)
unfolding decoded
apply_json env p event s = elim (env.unmarshal_string p.data_bytes) [
  | none ↦ err (other "json")
  | some text ↦
      if p.delta
      then elim (env.apply_delta s.prev_data (some text)) [
        | none ↦ err (other "fdelta")
        | some new_data ↦ decoded new_data event s
      ]
      else decoded (some text) event s
]

unfoldable pub apply_protobuf :
    Env → WirePublication → Publication → Subscription → Result (Subscription × Publication)
unfolding decoded
apply_protobuf env p event s =
    if p.delta
    then elim (env.apply_delta s.prev_data p.data_bytes) [
      | none ↦ err (other "fdelta")
      | some new_data ↦ decoded new_data event s
    ]
    else ok (record s { prev_data = p.data_bytes }, event)

unfoldable pub apply_at :
    ProtocolType
    → Env
    → WirePublication
    → Publication
    → Subscription
    → Result (Subscription × Publication)
unfolding apply_json apply_protobuf
apply_at json env p event s = apply_json env p event s
apply_at protobuf env p event s = apply_protobuf env p event s

unfoldable pub apply_delta_locked :
    Env
    → ProtocolType
    → WirePublication
    → Publication
    → Subscription
    → Result (Subscription × Publication)
unfolding apply_at
apply_delta_locked env type p event s =
    if not s.delta_negotiated
    then (if p.delta
        then err (other "delta publication without negotiated delta")
        else ok (s, event))
    else if p.delta && not (is_some s.prev_data)
    then err (other "delta publication without a base")
    else apply_at type env p event s

-- The outcome of the loop over recovered publications: each with its event, or the subscription
-- at the publication whose delta is broken, that publication's offset, and the error.
pub data Applied : Type 0 where
  applied : Subscription → List (WirePublication × Publication) → Applied
  broken : Subscription → ℕ → GoError → Applied

unfoldable pub add_event : WirePublication × Publication → Applied → Applied
add_event pair (applied s pairs) = applied s (pair ∷ pairs)
add_event pair (broken s offset e) = broken s offset e

unfoldable pub apply_recovered : Env → ProtocolType → List WirePublication → Subscription → Applied
unfolding add_event
apply_recovered env type [] s = applied s []
apply_recovered env type (p ∷ ps) s = elim (apply_delta_locked env type p (pub_from_proto p) s) [
  | err e ↦ broken s p.offset e
  | ok (s', event) ↦ add_event (p, event) (apply_recovered env type ps s')
]

-- A publication with an offset moves the position; its epoch is taken only while none is known,
-- and only if the publication is of the subscription's own channel.
unfoldable pub adopt_position : WirePublication → Subscription → Subscription
adopt_position p s =
    if ltb 0 p.offset
    then record s {
      offset = p.offset;
      epoch =
          if is_empty s.epoch && (not (is_empty p.epoch) && is_empty p.channel)
          then p.epoch
          else s.epoch;
    }
    else s

pub Applied-cases :
    (a : Applied)
    → ((s : Subscription) × (pairs : List (WirePublication × Publication)) × (a ≡ applied s pairs))
      ⊎ ((s : Subscription) × (offset : ℕ) × (e : GoError) × (a ≡ broken s offset e))
Applied-cases (applied s pairs) = inl (s, pairs, refl)
Applied-cases (broken s offset e) = inr (s, offset, e, refl)

-- The subscription that the loop ends with.
abbrev pub reached : Applied → Subscription
reached (applied s pairs) = s
reached (broken s offset e) = s
