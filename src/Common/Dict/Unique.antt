-- ===== src/Common/Dict/Unique.antt =====
-- A map has at most one entry for a key, whatever was stored in it and deleted from it.
use godxfeed.Common.Tests.{Bool-cases}
use godxfeed.Common.Keys.{Eq, ◌==◌}
use godxfeed.Common.Dict.{Dict, insert, remove, has, has-insert, has-remove}
use mathlib.Core.Path.{◌≡◌, refl}
use mathlib.Core.Bool.{false}
use mathlib.Core.Logic.{inl, inr}
use mathlib.Core.List.{[], ◌∷◌}
use native.Mathlib.Omega.{arith}

module _ {ℓ κ} {K : Type ℓ} {V : Type κ} ⦃e : Eq K⦄ where
  abbrev pub IsUnique : Dict K V → Type 0
  IsUnique [] = Unit
  IsUnique ((k, v) ∷ m) = (has k m ≡ false) × IsUnique m

  pub insert-IsUnique : (k : K) (v : V) (m : Dict K V) → IsUnique m → IsUnique (insert k v m)
  unfolding insert has
  insert-IsUnique k v [] h = (refl, tt)
  insert-IsUnique k v ((j, w) ∷ m) (new, h) = elim (Bool-cases (j == k)) [
    | inl same ↦ rw same (new, h)
    | inr other ↦
        rw other (
          ground (arith, has-insert k j v m, e.beq_iff k j, e.beq_iff j k),
          insert-IsUnique k v m h,
        )
  ]

  pub remove-IsUnique : (k : K) (m : Dict K V) → IsUnique m → IsUnique (remove k m)
  unfolding remove
  remove-IsUnique k [] h = tt
  remove-IsUnique k ((j, w) ∷ m) (new, h) = elim (Bool-cases (j == k)) [
    | inl same ↦ rw same (remove-IsUnique k m h)
    | inr other ↦ rw other (ground (arith, has-remove k j m), remove-IsUnique k m h)
  ]
