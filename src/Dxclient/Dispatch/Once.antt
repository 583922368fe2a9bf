-- ===== src/Dxclient/Dispatch/Once.antt =====
-- What the handlers of a client get of its messages.
use godxfeed.Common.{
  ℕ, ◌+◌, ◌≤◌, ◌<◌, ◌≡◌, [], ◌∷◌, List, if◌then◌else◌, eqb, eqb→eq, arith, ap, ◌&&◌,
}
use godxfeed.Dxclient.Dispatch.{
  times, without, ReadLoop, new_read_loop, Step, register, take, finish, decide, hand_over, give_up,
  send_failed, feed_set_up, stop_stream, stop_writing, stop_reading, Reach, here, next,
}

-- How often a handler has returned from a message.
abbrev pub returns : ℕ → ℕ → List (ℕ × ℕ) → ℕ
returns i h [] = 0
returns i h ((j, k) ∷ xs) = if eqb j i && eqb k h then returns i h xs + 1 else returns i h xs

-- How often a handler is still at a message.
abbrev pub under_way : ℕ → ℕ → ReadLoop → ℕ
under_way i h t = if eqb i t.message then times h t.running else 0

pub times-without :
    (h k : ℕ) (ks : List ℕ) → times h (without k ks) ≡ (if eqb k h then 0 else times h ks)
times-without h k [] = ground arith
times-without h k (j ∷ ks) =
    ground (arith, times-without h k ks, eqb→eq k j, eqb→eq j h, eqb→eq k h)

-- For one message and one handler.
record IsGiven (i h : ℕ) (t : ReadLoop) : Type 0 where
  fresh : t.registered ≤ h → times h t.handlers ≡ 0
  single : times h t.handlers ≤ 1
  copied : times h (t.snapshots i) ≤ 1
  later : t.message < i → returns i h t.handled ≡ 0
  given : i ≤ t.message → times h (t.snapshots i) ≡ returns i h t.handled + under_way i h t

Step-IsGiven : (i h : ℕ) {t u : ReadLoop} → Step t u → IsGiven i h t → IsGiven i h u
Step-IsGiven i h {t} (register o) s = ground (arith, eqb→eq t.registered h)
Step-IsGiven i h {t} (take r e) s =
    let none_left : times h t.running ≡ 0 = ap (times h) e in
    ground
      (arith, none_left, eqb→eq i t.message, eqb→eq (t.message + 1) i, eqb→eq i (t.message + 1))
Step-IsGiven i h {t} (finish k m n) s =
    ground (arith, times-without h k t.running, eqb→eq k h, eqb→eq i t.message, eqb→eq t.message i)
Step-IsGiven i h {t} (decide k m n o) s = ground (arith, times-without h k t.handlers)
Step-IsGiven i h {t} (hand_over k m n w) s =
    ground (arith, times-without h k t.running, eqb→eq k h, eqb→eq i t.message, eqb→eq t.message i)
Step-IsGiven i h {t} (give_up k w d e) s = ground (arith, times-without h k t.handlers)
Step-IsGiven i h {t} (send_failed k w o) s = ground (arith, times-without h k t.handlers)
Step-IsGiven i h {t} (feed_set_up k o) s = ground (arith, times-without h k t.handlers)
Step-IsGiven i h {t} (stop_stream k o d) s = ground (arith, times-without h k t.handlers)
Step-IsGiven i h stop_writing s = ground arith
Step-IsGiven i h (stop_reading r e) s = ground arith

Reach-IsGiven : (i h : ℕ) {t : ReadLoop} → Reach new_read_loop t → IsGiven i h t
unfolding new_read_loop
Reach-IsGiven i h here = ground arith
Reach-IsGiven i h (next r st) = Step-IsGiven i h st (Reach-IsGiven i h r)

-- Whatever the order of the steps of the read loop, its handlers and the calls beside them: a handler
-- that was registered when the loop took a message returns from it once or, if the message is the
-- last, is still to return; any other handler never gets it; and nothing returns from a message that
-- the loop has not taken.
pub dispatch_once :
    (i h : ℕ) (t : ReadLoop)
    → Reach new_read_loop t
    → (times h (t.snapshots i) ≤ 1)
      × (i ≤ t.message → times h (t.snapshots i) ≡ returns i h t.handled + under_way i h t)
      × (t.message < i → returns i h t.handled ≡ 0)
dispatch_once i h t r = let s = Reach-IsGiven i h r in (s.copied, s.given, s.later)
