-- ===== src/Common/StringOrder.antt =====
-- Go's `<` on strings is a strict total order.
use Prim.Native.Nat.{ℕ, Ordering, compare as compare_ℕ}
use Prim.Native.String.{String, [], ◌∷◌, compare}
use Prim.Native.String.compare
use mathlib.Core.Path.{◌≡◌, refl}
use mathlib.Core.Logic.{◌⊎◌}
use mathlib.Core.Bool.{true, false}
use native.Mathlib.Omega.{arith}
use text.Mathlib.TextPositions.{compare_refl}
use godxfeed.Common.Text.{str_lt}
use godxfeed.Common.Keys.{◌==◌, string_eq}

abbrev flip : Ordering → Ordering
flip Ordering.lt = Ordering.gt
flip Ordering.eq = Ordering.eq
flip Ordering.gt = Ordering.lt

flip-compare_ℕ : (m n : ℕ) → compare_ℕ n m ≡ flip (compare_ℕ m n)
flip-compare_ℕ m n = ground arith

flip-compare : (s t : String) → compare t s ≡ flip (compare s t)
flip-compare [] [] = refl
flip-compare [] (d ∷ t) = rw (compare.cons-nil, compare.nil-cons)
flip-compare (c ∷ s) [] = rw (compare.cons-nil, compare.nil-cons)
flip-compare (c ∷ s) (d ∷ t) =
    ground (arith, compare.cons-cons c d s t, compare.cons-cons d c t s, flip-compare s t)

compare_trans :
    (s t u : String)
    → compare s t ≡ Ordering.lt
    → compare t u ≡ Ordering.lt
    → compare s u ≡ Ordering.lt
compare_trans [] [] u h k = k
compare_trans [] (d ∷ t) [] h k = cc (compare.cons-nil d t)
compare_trans [] (d ∷ t) (e ∷ u) h k = compare.nil-cons e u
compare_trans (c ∷ s) [] u h k = cc (compare.cons-nil c s)
compare_trans (c ∷ s) (d ∷ t) [] h k = cc (compare.cons-nil d t)
compare_trans (c ∷ s) (d ∷ t) (e ∷ u) h k = ground (
  arith,
  compare.cons-cons c d s t,
  compare.cons-cons d e t u,
  compare.cons-cons c e s u,
  compare_trans s t u,
)

pub str_lt_trans : (s t u : String) → str_lt s t ≡ true → str_lt t u ≡ true → str_lt s u ≡ true
str_lt_trans s t u h k = ground (arith, compare_trans s t u)

pub str_lt_asymm : (s t : String) → str_lt s t ≡ true → str_lt t s ≡ false
str_lt_asymm s t h = ground (arith, flip-compare s t)

pub str_lt_irrefl : (s : String) → str_lt s s ≡ false
str_lt_irrefl s = ground (arith, compare_refl s)

pub str_lt_connected : (s t : String) → (s == t) ≡ false → (str_lt s t ≡ true) ⊎ (str_lt t s ≡ true)
str_lt_connected s t h = ground (arith, flip-compare s t)
