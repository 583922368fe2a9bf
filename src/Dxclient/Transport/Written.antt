-- ===== src/Dxclient/Transport/Written.antt =====
-- What the result of Send says about the connection.
use godxfeed.Common.{ℕ, ◌+◌, ◌≤◌, ◌≡◌, List, [], ◌∷◌, if◌then◌else◌, eqb, eqb→eq, arith}
use godxfeed.Dxclient.Transport.{
  Sender, outside, offering, withdrawn, succeeded, writing, acking, Transport, new_transport, Step,
  call, refuse, hand_over, give_up_offer, write, write_error, acknowledge, give_up_wait, cancel,
  stop_reading, Reach, here, next,
}

-- How often the payload of a call is on the connection.
abbrev pub times : ℕ → List ℕ → ℕ
times n [] = 0
times n (i ∷ is) = if eqb i n then times n is + 1 else times n is

-- The bounds that the point that a call has reached sets.
abbrev pub at_least : Sender → ℕ
at_least succeeded = 1
at_least _ = 0

abbrev pub at_most : Sender → ℕ
at_most outside = 0
at_most offering = 0
at_most withdrawn = 0
at_most _ = 1

-- For one call: the bounds hold, and the payload that the write loop has taken is that of a call
-- that waits or has given up.
record IsHonest (n : ℕ) (t : Transport) : Type 0 where
  lower : at_least (t.senders n) ≤ times n t.written
  upper : times n t.written ≤ at_most (t.senders n)
  taken :
      t.writer ≡ writing n
      → (at_least (t.senders n) ≡ 0) × (at_most (t.senders n) ≡ 1) × (times n t.written ≡ 0)
  put :
      t.writer ≡ acking n
      → (at_least (t.senders n) ≡ 0) × (at_most (t.senders n) ≡ 1) × (times n t.written ≡ 1)

Step-IsHonest : (n : ℕ) {t u : Transport} → Step t u → IsHonest n t → IsHonest n u
Step-IsHonest n (call i h) s = ground (arith, eqb→eq i n)
Step-IsHonest n (refuse i h) s = ground (arith, eqb→eq i n)
Step-IsHonest n (hand_over i h w) s = ground (arith, eqb→eq i n)
Step-IsHonest n (give_up_offer i h d) s = ground (arith, eqb→eq i n)
Step-IsHonest n (write i w) s = ground (arith, eqb→eq i n)
Step-IsHonest n (write_error i w) s = ground (arith, eqb→eq i n)
Step-IsHonest n (acknowledge i w h) s = ground (arith, eqb→eq i n)
Step-IsHonest n (give_up_wait i h d) s = ground (arith, eqb→eq i n)
Step-IsHonest n (cancel w) s = ground (arith)
Step-IsHonest n (stop_reading r) s = ground (arith)

Reach-IsHonest : (n : ℕ) {t : Transport} → Reach new_transport t → IsHonest n t
unfolding new_transport
Reach-IsHonest n here = ground arith
Reach-IsHonest n (next r st) = Step-IsHonest n st (Reach-IsHonest n r)

-- Whatever the order of the steps of any number of calls of Send and of the two loops: the payload of
-- a call that has returned nil is on the connection once; that of a call whose payload the write loop
-- has not taken, because it is not there yet, waits for the loop or has returned an error before, is
-- not there; and no payload is there twice.
pub send_writes_once :
    (n : ℕ) (t : Transport)
    → Reach new_transport t
    → (at_least (t.senders n) ≤ times n t.written) × (times n t.written ≤ at_most (t.senders n))
send_writes_once n t r = let h = Reach-IsHonest n r in (h.lower, h.upper)
