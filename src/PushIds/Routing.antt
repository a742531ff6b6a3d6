-- ===== src/PushIds/Routing.antt =====
-- The registry of numeric channel ids routes a subscription's pushes by its current id only.
use centrifuge_go.Prelude.{
  ℕ, true, List, none, some, Option-cases, Bool-cases, inl, inr, ◌≡◌, ◌≢◌, ◌↔◌, false, arith, ◌==◌,
  nat_key, ◌&&◌, nat_beq_iff, if◌then◌else◌, int64_pos, lookup, delete, lookup-insert,
  lookup-delete,
}
use centrifuge_go.PushIds.{points_to, reassign}

-- The pushes that reach the subscription at `a` carry its id, which is positive.
unfoldable pub IsRoutedBy : ℕ → ℕ → List (ℕ × ℕ) → Type 0
IsRoutedBy a id m = (k : ℕ) → lookup k m ≡ some a → (k ≡ id) × (int64_pos id ≡ true)

reassign-lookup :
    (a old new : ℕ) (m : List (ℕ × ℕ)) (k : ℕ)
    → lookup k (reassign a old new m) ≡ (
        if int64_pos new && (new == k)
        then some a
        else if (int64_pos old && points_to a (lookup old m)) && (old == k)
        then none
        else lookup k m)
unfolding reassign
reassign-lookup a old new m k = ground (
  arith,
  lookup-insert new a (delete old m),
  lookup-insert new k a m,
  lookup-insert new k a (delete old m),
  lookup-delete old k m,
)

-- When a subscription trades its old numeric id for a new one, the pushes that reach it carry the new
-- id only, and an id that is not positive routes no pushes to it.
pub reassign-IsRoutedBy :
    (a old new : ℕ) (m : List (ℕ × ℕ))
    → IsRoutedBy a old m
    → IsRoutedBy a new (reassign a old new m)
unfolding IsRoutedBy
reassign-IsRoutedBy a old new m h k e = elim (Option-cases (lookup old m)) [
  | inl n ↦
      ground (arith, n, reassign-lookup a old new m k, h k, nat_beq_iff new k, nat_beq_iff old k)
  | inr (b, n) ↦ ground (
    arith,
    n,
    reassign-lookup a old new m k,
    h k,
    nat_beq_iff new k,
    nat_beq_iff old k,
    nat_beq_iff b a,
  )
]

reassigned-others :
    (a old new b : ℕ) (m : List (ℕ × ℕ)) (k : ℕ)
    → a ≢ b
    → lookup k (reassign a old new m) ≡ some b
    → (lookup k m ≡ some b) × ((int64_pos new && (new == k)) ≡ false)
reassigned-others a old new b m k n e =
    ground (arith, reassign-lookup a old new m k, Bool-cases (int64_pos new && (new == k)))

kept-others :
    (a old new b : ℕ) (m : List (ℕ × ℕ)) (k : ℕ)
    → a ≢ b
    → (lookup k m ≡ some b) × ((int64_pos new && (new == k)) ≡ false)
    → lookup k (reassign a old new m) ≡ some b
kept-others a old new b m k n (e, d) = elim (Bool-cases (old == k)) [
  | inl y ↦
      ground (arith, y, d, e, reassign-lookup a old new m k, nat_beq_iff old k, nat_beq_iff b a)
  | inr y ↦ ground (arith, y, d, e, reassign-lookup a old new m k)
]

-- A subscription that trades its id does not touch the routes of another: an id routes to the other
-- subscription afterwards just when it did before and is not the new id, if that one is positive.
pub reassign-others :
    (a old new b : ℕ) (m : List (ℕ × ℕ)) (k : ℕ)
    → a ≢ b
    → (lookup k (reassign a old new m) ≡ some b)
      ↔ ((lookup k m ≡ some b) × ((int64_pos new && (new == k)) ≡ false))
reassign-others a old new b m k n =
    (reassigned-others a old new b m k n, kept-others a old new b m k n)
