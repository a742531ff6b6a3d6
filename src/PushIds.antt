-- ===== src/PushIds.antt =====
-- The channel compaction registry of client.go: numeric channel ids to subscriptions.
pub mod Routing
use centrifuge_go.Prelude.{
  ℕ, Bool, true, false, List, Option, none, some, ◌==◌, nat_key, ◌&&◌, if◌then◌else◌, int64_pos,
  lookup, insert, delete,
}
use centrifuge_go.State.{Client}

abbrev pub points_to : ℕ → Option ℕ → Bool
points_to a none = false
points_to a (some b) = b == a

-- The registry after `updateSubscriptionPushID`.
unfoldable pub reassign : ℕ → ℕ → ℕ → List (ℕ × ℕ) → List (ℕ × ℕ)
reassign address old_id new_id m =
    let m' =
      if int64_pos old_id && points_to address (lookup old_id m) then delete old_id m else m in
    if int64_pos new_id then insert new_id address m' else m'

unfoldable pub update_subscription_push_id : ℕ → ℕ → ℕ → Client → Client
unfolding reassign
update_subscription_push_id address old_id new_id c = record c {
  subs_by_id = reassign address old_id new_id c.subs_by_id;
}
