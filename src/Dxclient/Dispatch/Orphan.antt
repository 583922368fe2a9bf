-- ===== src/Dxclient/Dispatch/Orphan.antt =====
-- A call that returns on c.done while its handler has the verdict.
use godxfeed.Common.{ℕ, ◌≤◌, ◌<◌, ◌≡◌, refl, true, false, eqb→eq, eqb_refl, arith, ap}
use godxfeed.Dxclient.Dispatch.{
  times, at, remove_message_handler, sees_death, ReadLoop, new_read_loop, Step, register, take,
  finish, decide, hand_over, give_up, send_failed, feed_set_up, stop_stream, stop_writing,
  stop_reading, Reach, here, next,
}
use godxfeed.Dxclient.Dispatch.Once.{times-without}

-- A call that waits has registered its handler.
Step-waiting :
    (h : ℕ) {t u : ReadLoop}
    → Step t u
    → (t.waiting h ≡ true → h < t.registered)
    → u.waiting h ≡ true
    → h < u.registered
Step-waiting h {t} (register o) s = ground (arith, eqb→eq t.registered h)
Step-waiting h (take r e) s = s
Step-waiting h (finish k m n) s = s
Step-waiting h (decide k m n o) s = s
Step-waiting h (hand_over k m n w) s = ground arith
Step-waiting h (give_up k w d e) s = ground arith
Step-waiting h (send_failed k w o) s = ground arith
Step-waiting h (feed_set_up k o) s = s
Step-waiting h (stop_stream k o d) s = s
Step-waiting h stop_writing s = s
Step-waiting h (stop_reading r e) s = s

Reach-waiting :
    (h : ℕ) {t : ReadLoop} → Reach new_read_loop t → t.waiting h ≡ true → h < t.registered
unfolding new_read_loop
Reach-waiting h here = λ w. ground arith
Reach-waiting h (next r st) = Step-waiting h st (Reach-waiting h r)

-- The loop waits for a handler that nobody listens to, at its n-th message.
record IsOrphaned (h n : ℕ) (t : ReadLoop) : Type 0 where
  known : h < t.registered
  runs : 1 ≤ times h t.running
  offers : t.sending h ≡ true
  alone : t.waiting h ≡ false
  loops : t.reading ≡ true
  last : t.message ≡ n

Step-IsOrphaned : (h n : ℕ) {t u : ReadLoop} → Step t u → IsOrphaned h n t → IsOrphaned h n u
Step-IsOrphaned h n {t} (register o) s = ground (arith, eqb→eq t.registered h)
Step-IsOrphaned h n {t} (take r e) s =
    let none_left : times h t.running ≡ 0 = ap (times h) e in ground (arith, none_left, s.runs)
Step-IsOrphaned h n {t} (finish k m f) s = ground (arith, times-without h k t.running, eqb→eq k h)
Step-IsOrphaned h n (decide k m f o) s = ground arith
Step-IsOrphaned h n {t} (hand_over k m f w) s =
    ground (arith, times-without h k t.running, eqb→eq k h)
Step-IsOrphaned h n (give_up k w d e) s = ground arith
Step-IsOrphaned h n (send_failed k w o) s = ground arith
Step-IsOrphaned h n (feed_set_up k o) s = ground arith
Step-IsOrphaned h n (stop_stream k o d) s = ground arith
Step-IsOrphaned h n stop_writing s = ground arith
Step-IsOrphaned h n {t} (stop_reading r e) s =
    let none_left : times h t.running ≡ 0 = ap (times h) e in ground (arith, none_left, s.runs)

Reach-IsOrphaned : (h n : ℕ) {s t : ReadLoop} → IsOrphaned h n s → Reach s t → IsOrphaned h n t
Reach-IsOrphaned h n p here = p
Reach-IsOrphaned h n p (next r st) = Step-IsOrphaned h n st (Reach-IsOrphaned h n p r)

-- Whenever the read loop runs and the handler of a call of Authenticate or openChannel that waits
-- stands at `done <- ...`, the write loop may end, so that the call returns on c.done; and from there,
-- whatever happens, the read loop takes no further message and never ends.
pub orphan_blocks :
    (h : ℕ) (s : ReadLoop)
    → Reach new_read_loop s
    → s.reading ≡ true
    → 1 ≤ times h s.running
    → s.sending h ≡ true
    → s.waiting h ≡ true
    → sees_death (s.owner h) ≡ true
    → (t : ReadLoop) × Reach s t
      × (t.waiting h ≡ false)
      × ((u : ReadLoop) → Reach t u → (u.message ≡ s.message) × (u.reading ≡ true))
orphan_blocks h s r reads runs offers waits dies =
    let t = record (remove_message_handler h s) { done = true; waiting = at h false s.waiting } in
    let alone : t.waiting h ≡ false = rw (eqb_refl h) refl in
    let orphaned : IsOrphaned h s.message t = record {
      known = Reach-waiting h r waits;
      runs = runs;
      offers = offers;
      alone = alone;
      loops = reads;
      last = refl;
    } in
    (
      t,
      next (next here stop_writing) (give_up h waits dies refl),
      alone,
      λ u reach. let p = Reach-IsOrphaned h s.message orphaned reach in (p.last, p.loops),
    )
