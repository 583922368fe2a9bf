-- ===== src/Examples/Concurrency.antt =====
-- Witnesses of the theorems on goroutines that run at once.
use godxfeed.Common.{
  ℕ, zero, suc, ◌+◌, ◌≤◌, ◌<◌, ◌≡◌, refl, Bool, true, false, ◌||◌, List, [], ◌∷◌, arith, ◌==◌,
}
use godxfeed.Common.Dict.{has}
use godxfeed.Dxclient.Transport.{
  Transport, Reach, Waited, new_transport, outside, offering, awaiting, with_sender, succeeded,
  failed, idle, call, hand_over, write, acknowledge, here, next,
}
use godxfeed.Dxclient.Transport.Stuck.{wait_blocks}
use godxfeed.Dxclient.Transport.Written.{times, at_least, at_most, send_writes_once}
use godxfeed.Dxclient.Dispatch
use godxfeed.Dxclient.Dispatch.{
  ReadLoop, authenticate, streamer, hands_over, sees_death, at, new_read_loop, register, take,
  finish, decide,
}
use godxfeed.Dxclient.Dispatch.Once.{returns, under_way, dispatch_once}
use godxfeed.Dxclient.Dispatch.Orphan.{orphan_blocks}
use godxfeed.Subscriptions.{SubKey, key_eq, update_subscription, unregistered}
use godxfeed.Subscriptions.Wire.{IsInLockstep, mentions}
use godxfeed.Subscriptions.Interleaving.{
  Pc, System, add_check, bulk_check, remove_check, returned, advance, step, run_schedule,
}
use godxfeed.Subscriptions.Interleaving.Effects.{KeepsSides}
use godxfeed.Subscriptions.Interleaving.Orderly.{IsIdle, run_schedule-IsInLockstep}
use godxfeed.Examples.{
  ascii_only, accepting, spy_quote, spy_greeks, aapl_quote, aapl_greeks, with_spy,
}

abbrev is_added : SubKey → Bool
is_added k = spy_greeks == k || mentions k (aapl_quote ∷ aapl_greeks ∷ [])

-- Three goroutines: an Add, a BulkAdd and a Remove.
abbrev starts : ℕ → Pc
starts zero = add_check spy_greeks
starts (suc zero) = bulk_check (aapl_quote ∷ aapl_greeks ∷ [])
starts (suc (suc zero)) = remove_check spy_quote
starts (suc (suc (suc n))) = returned true

abbrev together : System
together = record { manager = with_spy; pcs = starts }

abbrev turns : List ℕ
turns = 0 ∷ 1 ∷ 2 ∷ 2 ∷ 1 ∷ 0 ∷ 0 ∷ 2 ∷ 1 ∷ []

with_spy-IsInLockstep : IsInLockstep with_spy
with_spy-IsInLockstep = record { at_key = λ j. unfold has in ground arith }

starts-KeepsSides : (i : ℕ) → KeepsSides is_added (starts i)
starts-KeepsSides zero = refl
starts-KeepsSides (suc zero) = λ j h. ground arith
starts-KeepsSides (suc (suc zero)) = refl
starts-KeepsSides (suc (suc (suc n))) = tt

starts-IsIdle : (i : ℕ) → IsIdle (starts i)
starts-IsIdle zero j = (refl, refl)
starts-IsIdle (suc zero) j = (refl, refl)
starts-IsIdle (suc (suc zero)) j = (refl, refl)
starts-IsIdle (suc (suc (suc n))) j = (refl, refl)

ends-IsIdle : (i : ℕ) → IsIdle ((run_schedule accepting turns together).pcs i)
unfolding run_schedule advance step update_subscription unregistered has
ends-IsIdle zero j = (refl, refl)
ends-IsIdle (suc zero) j = (refl, refl)
ends-IsIdle (suc (suc zero)) j = (refl, refl)
ends-IsIdle (suc (suc (suc n))) j = ground arith

run_schedule-IsInLockstep_example : IsInLockstep (run_schedule accepting turns together).manager
run_schedule-IsInLockstep_example =
    run_schedule-IsInLockstep is_added accepting turns together with_spy-IsInLockstep
      starts-KeepsSides starts-IsIdle ends-IsIdle

-- One call of Send, at its select.
abbrev sending : Transport
sending = record new_transport { senders = λ n. offering }

wait_blocks_example :
    (t : Transport) × Reach sending t
    × (t.done ≡ true)
    × (t.written ≡ 4 ∷ [])
    × (t.senders 4 ≡ failed)
    × ((u : Transport) → Reach t u → ¬ (Waited u))
unfolding new_transport
wait_blocks_example = wait_blocks sending 4 refl refl refl

-- One call of Send, from its start to nil.
abbrev delivered : Transport
delivered = record {
  done = false;
  reading = true;
  writer = idle;
  senders =
      with_sender 4 succeeded (with_sender 4 awaiting (with_sender 4 offering (λ n. outside)));
  written = 4 ∷ [];
}

delivers : Reach new_transport delivered
unfolding new_transport
delivers =
    next (next (next (next here (call 4 refl)) (hand_over 4 refl refl)) (write 4 refl))
      (acknowledge 4 refl refl)

send_writes_once_example :
    (at_least succeeded ≤ times 4 (4 ∷ [])) × (times 4 (4 ∷ []) ≤ at_most succeeded)
send_writes_once_example = send_writes_once 4 delivered delivers

-- A streamer and a call of Authenticate; the read loop has taken one message, from which the
-- streamer has returned, while the handler of the call has its verdict.
abbrev undecided : ReadLoop
undecided = record {
  registered = 2;
  owner = at 1 authenticate (at 0 streamer (λ i. streamer));
  handlers = 0 ∷ [];
  message = 1;
  snapshots = at 1 (1 ∷ 0 ∷ []) (λ i. []);
  running = 1 ∷ [];
  sending = at 1 true (λ i. false);
  waiting = at 1 true (at 0 false (λ i. false));
  handled = (1, 0) ∷ [];
  done = false;
  reading = true;
}

is_undecided : Dispatch.Reach new_read_loop undecided
unfolding new_read_loop hands_over
is_undecided =
    Dispatch.next
      (Dispatch.next
        (Dispatch.next
          (Dispatch.next (Dispatch.next Dispatch.here (register streamer)) (register authenticate))
          (take refl refl))
        (finish 0 (ground arith) refl))
      (decide 1 (ground arith) refl refl)

dispatch_once_example :
    (Dispatch.times 0 (1 ∷ 0 ∷ []) ≤ 1)
    × (1 ≤ 1 → Dispatch.times 0 (1 ∷ 0 ∷ []) ≡ returns 1 0 ((1, 0) ∷ []) + under_way 1 0 undecided)
    × (1 < 1 → returns 1 0 ((1, 0) ∷ []) ≡ 0)
dispatch_once_example = dispatch_once 1 0 undecided is_undecided

orphan_blocks_example :
    (t : ReadLoop) × Dispatch.Reach undecided t
    × (t.waiting 1 ≡ false)
    × ((u : ReadLoop) → Dispatch.Reach t u → (u.message ≡ 1) × (u.reading ≡ true))
unfolding sees_death
orphan_blocks_example = orphan_blocks 1 undecided is_undecided refl (ground arith) refl refl refl
