-- ===== src/Prelude/Maps.antt =====
-- Go maps as association lists. The iteration order of a Go map is not fixed; here it is the order
-- of the list, and the theorems are about every list.
use mathlib.Core.Path.{◌≡◌, refl}
use mathlib.Core.Bool.{true}
use mathlib.Core.List.{List, [], ◌∷◌}
use mathlib.Core.Option.{Option, none, some}
use native.Mathlib.Omega.{arith}
use centrifuge_go.Prelude.Tests.{Key, ◌==◌, if◌then◌else◌}

pub ==_refl {κ} : {K : Type κ} ⦃key : Key K⦄ (x : K) → (x == x) ≡ true
==_refl ⦃key⦄ x = (key.same_iff x x).1 refl

-- The entries of a map are `(x, a) ∷ rest`; at most one of them has a given key.
module _ {κ ℓ} {K : Type κ} {A : Type ℓ} ⦃key : Key K⦄ where
  unfoldable pub delete : K → List (K × A) → List (K × A)
  delete x [] = []
  delete x ((y, a) ∷ rest) =
      let others = delete x rest in if y == x then others else (y, a) ∷ others

  pub delete-nil : (x : K) (entries : List (K × A)) → entries ≡ [] → delete x entries ≡ []
  unfolding delete
  delete-nil x [] h = refl
  delete-nil x (entry ∷ rest) h = cc

  -- `m[x]`, with the second result of Go's lookup as an `Option`.
  unfoldable pub lookup : K → List (K × A) → Option A
  lookup x [] = none
  lookup x ((y, a) ∷ rest) = let further = lookup x rest in if y == x then some a else further

  pub lookup-delete :
      (x y : K) (entries : List (K × A))
      → lookup y (delete x entries) ≡ (if x == y then none else lookup y entries)
  unfolding delete lookup
  lookup-delete x y [] = ground arith
  lookup-delete x y ((z, a) ∷ rest) =
      ground (arith, lookup-delete x y rest, key.same_iff z y, key.same_iff z x, key.same_iff x y)

  -- `m[x] = a`.
  unfoldable pub insert : K → A → List (K × A) → List (K × A)
  insert x a [] = (x, a) ∷ []
  insert x a ((y, b) ∷ rest) =
      let later = insert x a rest in if y == x then (x, a) ∷ rest else (y, b) ∷ later

  pub lookup-insert :
      (x y : K) (a : A) (entries : List (K × A))
      → lookup y (insert x a entries) ≡ (if x == y then some a else lookup y entries)
  unfolding insert lookup
  lookup-insert x y a [] = refl
  lookup-insert x y a ((z, b) ∷ rest) =
      ground (arith, lookup-insert x y a rest, key.same_iff z y, key.same_iff z x, key.same_iff x y)

  pub lookup-delete_self : (x : K) (entries : List (K × A)) → lookup x (delete x entries) ≡ none
  lookup-delete_self x entries = ground (arith, key.same_iff x x, lookup-delete x x entries)

  pub lookup-insert_self :
      (x : K) (a : A) (entries : List (K × A)) → lookup x (insert x a entries) ≡ some a
  lookup-insert_self x a entries = ground (arith, key.same_iff x x, lookup-insert x x a entries)
