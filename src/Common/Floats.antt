-- ===== src/Common/Floats.antt =====
-- Go's float64, of which the program only parses, compares and passes on values.
use mathlib.Core.Path.{◌≡◌}
use mathlib.Core.Bool.{Bool, true, false, not, ◌&&◌}
use Prim.Native.String.{String}
use godxfeed.Common.Outcome.{Error}
use mathlib.Core.Option.{Option}

-- `parse` is strconv.ParseFloat(s, 64), which returns a value also with an error.
pub record Floats : Type 1 where
  pub F : Type 0
  pub zero : F
  pub parse : String → F × Option Error
  pub less : F → F → Bool
  pub same : F → F → Bool

-- The order of IEEE 754 on the values that are not NaN.
pub record IsOrdered (f : Floats) (is_number : f.F → Bool) : Type 0 where
  pub transitive :
      (a b c : f.F)
      → is_number a ≡ true
      → is_number b ≡ true
      → is_number c ≡ true
      → f.less a b ≡ true
      → f.less b c ≡ true
      → f.less a c ≡ true
  pub asymmetric :
      (a b : f.F) → is_number a ≡ true → is_number b ≡ true → f.less a b ≡ true → f.less b a ≡ false
  pub cotransitive :
      (a b c : f.F)
      → is_number a ≡ true
      → is_number b ≡ true
      → is_number c ≡ true
      → f.less a c ≡ true
      → f.less a b ≡ false
      → f.less b c ≡ true
  pub same_iff :
      (a b : f.F)
      → is_number a ≡ true
      → is_number b ≡ true
      → f.same a b ≡ (not (f.less a b) && not (f.less b a))
