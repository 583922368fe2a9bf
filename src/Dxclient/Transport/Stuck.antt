-- ===== src/Dxclient/Transport/Stuck.antt =====
-- A call of Send that gives up while the write loop is about to acknowledge it.
use godxfeed.Common.{ℕ, ◌≡◌, refl, true, false, ◌∷◌, eqb_refl, arith}
use godxfeed.Dxclient.Transport.{
  offering, awaiting, failed, idle, writing, acking, Transport, with_sender, Step, call, refuse,
  hand_over, give_up_offer, write, write_error, acknowledge, give_up_wait, cancel, stop_reading,
  Reach, here, next, Waited,
}

-- The write loop waits for a call that has returned.
record IsStuck (n : ℕ) (t : Transport) : Type 0 where
  waiting : t.writer ≡ acking n
  gone : t.senders n ≡ failed

Step-IsStuck : (n : ℕ) {t u : Transport} → Step t u → IsStuck n t → IsStuck n u
Step-IsStuck n (call i h) s = ground arith
Step-IsStuck n (refuse i h) s = ground arith
Step-IsStuck n (hand_over i h w) s = ground arith
Step-IsStuck n (give_up_offer i h d) s = ground arith
Step-IsStuck n (write i w) s = ground arith
Step-IsStuck n (write_error i w) s = ground arith
Step-IsStuck n (acknowledge i w h) s = ground arith
Step-IsStuck n (give_up_wait i h d) s = ground arith
Step-IsStuck n (cancel w) s = ground arith
Step-IsStuck n (stop_reading r) s = ground arith

Reach-IsStuck : (n : ℕ) {s t : Transport} → IsStuck n s → Reach s t → IsStuck n t
Reach-IsStuck n h here = h
Reach-IsStuck n h (next r st) = Step-IsStuck n st (Reach-IsStuck n h r)

-- Whenever the write loop is in its select, the read loop runs and a call of Send is about to hand
-- its payload over, the two may go on so that the payload is written, the read loop ends, and the
-- call returns ErrClient; and from there, whatever happens, Wait never returns.
pub wait_blocks :
    (s : Transport) (n : ℕ)
    → s.writer ≡ idle
    → s.reading ≡ true
    → s.senders n ≡ offering
    → (t : Transport) × Reach s t
      × (t.done ≡ true)
      × (t.written ≡ n ∷ s.written)
      × (t.senders n ≡ failed)
      × ((u : Transport) → Reach t u → ¬ (Waited u))
wait_blocks s n w r o =
    let s1 = record s { writer = writing n; senders = with_sender n awaiting s.senders } in
    let s2 = record s1 { writer = acking n; written = n ∷ s1.written } in
    let s3 = record s2 { reading = false; done = true } in
    let s4 = record s3 { senders = with_sender n failed s3.senders } in
    let stuck : IsStuck n s4 = record { waiting = refl; gone = rw (eqb_refl n) refl } in
    (
      s4,
      next (next (next (next here (hand_over n o w)) (write n refl)) (stop_reading r))
          (give_up_wait n (rw (eqb_refl n) refl) refl),
      refl,
      refl,
      stuck.gone,
      λ u reach ended.
          let held = Reach-IsStuck n stuck reach in absurd (ground (arith, held.waiting, ended)),
    )
