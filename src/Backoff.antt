-- ===== src/Backoff.antt =====
-- service/backoff.go: the delay before a reconnect attempt, in nanoseconds. The jitter is a number
-- below 2^53, over 2^53, as `rand.Float64` draws it. The float product is taken exactly: its rounding
-- to 53 bits, which moves a delay by at most one nanosecond, is not modelled. The attempt counter is
-- not wrapped: it would take 2^63 attempts.
use godxfeed.Common.{ℕ, ◌+◌, ◌-◌, ◌*◌, ◌/◌, ◌^◌, ◌≤◌, ◌<◌, arith, ltb, if◌then◌else◌}
use godxfeed.Common.{zero, suc}
use native.Mathlib.Nat.{mul-le-mul_left}

pub record Backoff : Type 0 where
  pub attempt : ℕ
  pub base : ℕ
  pub max : ℕ

unfoldable pub new_backoff : Backoff
new_backoff = record { attempt = 0; base = 1_000_000_000; max = 60_000_000_000 }

abbrev pub cap_shift : ℕ → ℕ
cap_shift n = if ltb n 6 then n else 6

abbrev pub unit : ℕ
unit = 9_007_199_254_740_992

-- The delay before its jitter.
unfoldable pub full_delay : ℕ → Backoff → ℕ
full_delay attempt b =
    let delay = b.base * 2 ^ cap_shift (attempt - 1) in if ltb b.max delay then b.max else delay

-- next, with the jitter that is drawn: the state after, and the delay.
unfoldable pub next : ℕ → Backoff → Backoff × ℕ
unfolding full_delay
next jitter b =
    let attempt = b.attempt + 1 in
    let delay = full_delay attempt b in
    (record b { attempt = attempt }, (delay * unit + delay * jitter) / (2 * unit))

unfoldable pub reset : Backoff → Backoff
reset b = record b { attempt = 0 }

jittered :
    (d x : ℕ)
    → x ≤ d * unit
    → (d ≤ 2 * ((d * unit + x) / (2 * unit)) + 1) × ((d * unit + x) / (2 * unit) ≤ d)
jittered d x h = (omega arith, omega arith)

full_delay_le : (n : ℕ) (b : Backoff) → full_delay n b ≤ b.max
unfolding full_delay
full_delay_le n b = ground arith

pow_pos : (k : ℕ) → 1 ≤ 2 ^ k
pow_pos zero = omega arith
pow_pos (suc k) = omega (arith, pow_pos k)

full_delay_ge : (k n : ℕ) → 1_000_000_000 ≤ full_delay k (record new_backoff { attempt = n })
unfolding full_delay new_backoff
full_delay_ge k n = ground (arith, pow_pos (cap_shift (k - 1)))

jitter_weaken : (j : ℕ) → j < unit → j ≤ unit
jitter_weaken j h = omega arith

-- At every attempt of a reconnect, the jittered delay lies between half the full delay, rounded
-- down, and the full delay, and the full delay lies between one and sixty seconds.
pub next_bounds :
    (jitter n : ℕ)
    → jitter < unit
    → let b = record new_backoff { attempt = n } in
      (full_delay (n + 1) b ≤ 2 * (next jitter b).1 + 1)
      × ((next jitter b).1 ≤ full_delay (n + 1) b)
      × (1_000_000_000 ≤ full_delay (n + 1) b)
      × (full_delay (n + 1) b ≤ 60_000_000_000)
unfolding next new_backoff
next_bounds jitter n h =
    let b : Backoff = record new_backoff { attempt = n } in
    let d = full_delay (n + 1) b in
    let (low, high) = jittered d (d * jitter) (mul-le-mul_left d (jitter_weaken jitter h)) in
    (low, high, full_delay_ge (n + 1) n, full_delay_le (n + 1) b)
