-- ===== src/Common/Int64.antt =====
-- Go's int64, which `int` is on the servers that run the program: a number below 2^64 that stands for
-- its bit pattern in two's complement.
use Prim.Native.Nat.{ℕ, ◌+◌, ◌*◌, ◌-◌, ◌%◌}
use mathlib.Core.Bool.{Bool, not}
use godxfeed.Common.Tests.{ltb}

abbrev pub two_63 : ℕ
two_63 = 9_223_372_036_854_775_808

abbrev pub two_64 : ℕ
two_64 = 18_446_744_073_709_551_616

-- a < b
unfoldable pub signed_lt : ℕ → ℕ → Bool
signed_lt a b = ltb ((a + two_63) % two_64) ((b + two_63) % two_64)

-- a <= 0
unfoldable pub is_nonpositive : ℕ → Bool
unfolding signed_lt
is_nonpositive a = not (signed_lt 0 a)

unfoldable pub wrap_add : ℕ → ℕ → ℕ
wrap_add a b = (a + b) % two_64

unfoldable pub wrap_mul : ℕ → ℕ → ℕ
wrap_mul a b = a * b % two_64

-- a - b
unfoldable pub wrap_sub : ℕ → ℕ → ℕ
wrap_sub a b = (a + (two_64 - b % two_64)) % two_64
