-- ===== src/Common/Dict.antt =====
-- Go's `map` as an association list with at most one entry for a key. The iteration order of a Go
-- map is unspecified: what must not depend on it is proved for every order.
pub mod Unique
use godxfeed.Common.Tests.{if◌then◌else◌, Bool-cases}
use godxfeed.Common.Keys.{Eq, ◌==◌, ==_sound}
use mathlib.Core.Path.{◌≡◌, refl}
use mathlib.Core.Bool.{Bool, true, false}
use mathlib.Core.Option.{Option, none, some}
use mathlib.Core.Logic.{inl, inr}
use mathlib.Core.List.{List, [], ◌∷◌}
use native.Mathlib.Omega.{arith}

abbrev pub Dict {ℓ κ} : Type ℓ → Type κ → Type (ℓ ⊔ κ)
Dict K V = List (K × V)

module _ {ℓ κ} {K : Type ℓ} {V : Type κ} ⦃e : Eq K⦄ where
  -- v, ok := m[k]
  unfoldable pub lookup : K → Dict K V → Option V
  lookup k [] = none
  lookup k ((j, v) ∷ dict) = if j == k then some v else lookup k dict

  -- m[k] = v
  unfoldable pub insert : K → V → Dict K V → Dict K V
  insert k v [] = (k, v) ∷ []
  insert k v ((j, w) ∷ dict) = if j == k then (j, v) ∷ dict else (j, w) ∷ insert k v dict

  -- delete(m, k)
  unfoldable pub remove : K → Dict K V → Dict K V
  remove k [] = []
  remove k ((j, v) ∷ dict) = let rest = remove k dict in if j == k then rest else (j, v) ∷ rest

  -- _, exists := m[k]
  unfoldable pub has : K → Dict K V → Bool
  has k [] = false
  has k ((j, v) ∷ dict) = if j == k then true else has k dict

  pub lookup-insert :
      (k j : K) (v : V) (dict : Dict K V)
      → lookup j (insert k v dict) ≡ (if k == j then some v else lookup j dict)
  unfolding lookup insert
  lookup-insert k j v [] = refl
  lookup-insert k j v ((i, w) ∷ dict) =
      ground (arith, e.beq_iff k j, e.beq_iff i k, e.beq_iff i j, lookup-insert k j v dict)

  pub lookup-remove :
      (k j : K) (dict : Dict K V)
      → lookup j (remove k dict) ≡ (if k == j then none else lookup j dict)
  unfolding lookup remove
  lookup-remove k j [] = ground arith
  lookup-remove k j ((i, w) ∷ dict) =
      ground (arith, e.beq_iff k j, e.beq_iff i k, e.beq_iff i j, lookup-remove k j dict)

  pub has-insert :
      (k j : K) (v : V) (dict : Dict K V)
      → has j (insert k v dict) ≡ (if k == j then true else has j dict)
  unfolding has insert
  has-insert k j v [] = refl
  has-insert k j v ((i, w) ∷ dict) =
      ground (arith, e.beq_iff k j, e.beq_iff i k, e.beq_iff i j, has-insert k j v dict)

  pub has-remove :
      (k j : K) (dict : Dict K V) → has j (remove k dict) ≡ (if k == j then false else has j dict)
  unfolding has remove
  has-remove k j [] = ground arith
  has-remove k j ((i, w) ∷ dict) =
      ground (arith, e.beq_iff k j, e.beq_iff i k, e.beq_iff i j, has-remove k j dict)

  pub lookup_of_not-has : (k : K) (dict : Dict K V) → has k dict ≡ false → lookup k dict ≡ none
  unfolding lookup has
  lookup_of_not-has k [] h = refl
  lookup_of_not-has k ((j, v) ∷ dict) h = ground (arith, lookup_of_not-has k dict)

  pub not-has_of_lookup : (k : K) (dict : Dict K V) → lookup k dict ≡ none → has k dict ≡ false
  unfolding lookup has
  not-has_of_lookup k [] h = refl
  not-has_of_lookup k ((j, v) ∷ dict) h = ground (arith, not-has_of_lookup k dict)

  pub has_of_lookup : (k : K) (v : V) (dict : Dict K V) → lookup k dict ≡ some v → has k dict ≡ true
  unfolding lookup has
  has_of_lookup k v [] h = cc
  has_of_lookup k v ((j, w) ∷ dict) h = ground (arith, has_of_lookup k v dict)

  pub insert_of_not-has :
      (k : K) (v : V) (dict : Dict K V)
      → has k dict ≡ false
      → (j : K) → has j dict ≡ true
      → (k == j) ≡ false
  insert_of_not-has k v dict h j g = elim (Bool-cases (k == j)) [
    | inl same ↦ cc (==_sound k j same)
    | inr other ↦ other
  ]
