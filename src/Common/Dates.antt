-- ===== src/Common/Dates.antt =====
-- `time.Parse` with the layout "2006-01-02". A date is only compared, so it is a number in the order
-- of dates: 10000 for each year, 100 for each month, and the day.
use Prim.Native.Nat.{ℕ, zero, suc, ◌+◌, ◌*◌, ◌-◌, ◌%◌}
use Prim.Native.Char.{Char, code}
use Prim.Native.String.{String, [], ◌∷◌}
use mathlib.Core.Bool.{Bool, not, ◌&&◌, ◌||◌}
use mathlib.Core.Option.{Option, none, some}
use godxfeed.Common.Tests.{leb, eqb, if◌then◌else◌}

unfoldable is_digit : Char → Bool
is_digit c = leb 48 (code c) && leb (code c) 57

-- A number of exactly so many digits, and the text after it.
unfoldable digits : ℕ → ℕ → String → Option (ℕ × String)
unfolding is_digit
digits zero acc s = some (acc, s)
digits (suc n) acc [] = none
digits (suc n) acc (c ∷ s) =
    let rest = digits n (acc * 10 + (code c - 48)) s in if is_digit c then rest else none

unfoldable dash : String → Option String
dash [] = none
dash (c ∷ s) = if eqb (code c) 45 then some s else none

unfoldable is_leap : ℕ → Bool
is_leap y = eqb (y % 4) 0 && (not (eqb (y % 100) 0) || eqb (y % 400) 0)

unfoldable days_in : ℕ → ℕ → ℕ
unfolding is_leap
days_in y m =
    if eqb m 2
    then if is_leap y then 29 else 28
    else if eqb m 4 || eqb m 6 || eqb m 9 || eqb m 11
    then 30
    else 31

-- The date of a year, a month and a day that are there, and nothing after them.
unfoldable checked_date : ℕ → ℕ → ℕ → String → Option ℕ
unfolding days_in
checked_date y m d [] =
    if leb 1 m && leb m 12 && leb 1 d && leb d (days_in y m)
    then some (y * 10_000 + m * 100 + d)
    else none
checked_date y m d (c ∷ s) = none

infixl 5 ◌>>=◌
abbrev ◌>>=◌ {ℓ κ} : {A : Type ℓ} {B : Type κ} → Option A → (A → Option B) → Option B
none >>= f = none
some a >>= f = f a

unfoldable pub parse_date : String → Option ℕ
unfolding digits dash checked_date
parse_date s = do
  (y, s₁) ← digits 4 0 s
  s₂ ← dash s₁
  (m, s₃) ← digits 2 0 s₂
  s₄ ← dash s₃
  (d, s₅) ← digits 2 0 s₄
  checked_date y m d s₅
