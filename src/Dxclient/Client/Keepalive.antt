-- ===== src/Dxclient/Client/Keepalive.antt =====
-- The goroutine that Dial starts when SETUP arrives, which sends KEEPALIVE.
use godxfeed.Common.{ℕ, ◌*◌, ◌/◌, ◌≤◌, ◌<◌, ◌≡◌, false, List, [], ◌∷◌, if◌then◌else◌, arith}
use godxfeed.Common.Int64.{signed_lt, is_nonpositive, wrap_mul, wrap_sub}
use godxfeed.Dxclient.Message.{Message, keepalive}
use godxfeed.Dxclient.Client.Calls.{base}

-- a / d of Go for a positive d, which rounds to zero.
abbrev quotient : ℕ → ℕ → ℕ
quotient a d = if signed_lt a 0 then wrap_sub 0 (wrap_sub 0 a / d) else a / d

-- time.Duration(msg.KeepAliveTimeout*4/5) * time.Second
unfoldable keepalive_interval : ℕ → ℕ
unfolding signed_lt wrap_mul wrap_sub
keepalive_interval timeout = wrap_mul (quotient (wrap_mul timeout 4) 5) 1_000_000_000

-- What the goroutine sees in its select.
data Beat : Type 0 where
  ticked cancelled : Beat

-- A panic in a goroutine ends the program.
data Alive : Type 0 where
  panicked beating ended : Alive

-- The messages that the goroutine gives to Send, whose errors it drops, and where it then stands.
unfoldable beats : List Beat → List Message × Alive
beats [] = ([], beating)
beats (cancelled ∷ bs) = ([], ended)
beats (ticked ∷ bs) = (keepalive (base "KEEPALIVE" 0) ∷ (beats bs).0, (beats bs).1)

-- time.NewTicker panics for an interval that is not positive.
unfoldable keep_alive : ℕ → List Beat → List Message × Alive
unfolding is_nonpositive
keep_alive timeout bs =
    if is_nonpositive (keepalive_interval timeout) then ([], panicked) else beats bs

-- For a timeout from 2 seconds to a day, the interval is positive and shorter than the timeout.
keepalive_interval_bounds :
    (timeout : ℕ)
    → 2 ≤ timeout
    → timeout ≤ 86_400
    → (0 < keepalive_interval timeout)
      × (keepalive_interval timeout < timeout * 1_000_000_000)
      × (is_nonpositive (keepalive_interval timeout) ≡ false)
unfolding keepalive_interval is_nonpositive
keepalive_interval_bounds timeout lo hi = ground arith

-- A SETUP whose timeout is missing, or a second, ends the program.
short_timeout_panics :
    (timeout : ℕ) (bs : List Beat) → timeout ≤ 1 → (keep_alive timeout bs).1 ≡ panicked
unfolding keep_alive keepalive_interval
short_timeout_panics timeout bs h = ground arith
