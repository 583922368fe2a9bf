-- ===== src/Examples/Subscriptions.antt =====
-- Witnesses of the theorems on the subscriptions and on subjects.
use mathlib.Core.List.{Permᴰ}
use mathlib.Core.List.Permᴰ as PermD
use Prim.Native.String.{◌++◌}
use godxfeed.Common.{ℕ, String, ◌≡◌, refl, true, false, List, [], ◌∷◌, map}
use godxfeed.Common.Dict.{insert, remove, lookup, has}
use godxfeed.Common.Sort.{IsSorted}
use godxfeed.Common.Text.{split, to_lower, lower_char}
use godxfeed.Subject.{subject_for}
use godxfeed.Subject.Scheme.{NoDot, subject_for_injective, option_subject_has_empty_token}
use godxfeed.Subscriptions.{
  add_sub, bulk_add, unregistered, register_all, observe, remove_sub, rebind, update_subscription,
  SubKey, key_eq, new_subscription_manager, info_less, info_of, snapshot,
}
use godxfeed.Subscriptions.Wire.{IsInLockstep, on_wire}
use godxfeed.Subscriptions.History.{
  perform, LastResumes, AllResume, resume, Call, subscribe, unsubscribe, batch, seen, IsClean, run,
  run-IsInLockstep, run-IsClean,
}
use godxfeed.Subscriptions.Snapshot.{snapshot_canonical}
use godxfeed.Subscriptions.Interleaving.{run_schedule, succeeded}
use godxfeed.Subscriptions.Interleaving.Races.{
  two_adds_one_remove, late_store, late_store_breaks_lockstep, add_and_rebind, add_across_rebind,
  rebind_drops_add,
}
use godxfeed.Examples.{
  ascii_only, accepting, spy_quote, spy_greeks, aapl_quote, aapl_greeks, with_spy,
}

abbrev day : List Call
day =
    subscribe spy_quote
    ∷ batch (aapl_quote ∷ aapl_greeks ∷ [])
    ∷ seen 5 spy_quote
    ∷ unsubscribe spy_quote
    ∷ resume 2
    ∷ subscribe spy_greeks
    ∷ []

day-LastResumes : LastResumes accepting day (new_subscription_manager 1) Unit
unfolding LastResumes perform add_sub bulk_add unregistered register_all observe remove_sub rebind
    update_subscription new_subscription_manager has insert remove lookup
day-LastResumes = (λ k. refl, refl)

day-AllResume : AllResume accepting day (new_subscription_manager 1)
unfolding AllResume perform add_sub bulk_add unregistered register_all observe remove_sub rebind
    update_subscription new_subscription_manager has insert remove lookup
day-AllResume = ((λ k. refl, refl), tt)

run-IsInLockstep_example : IsInLockstep (run accepting day (new_subscription_manager 1))
run-IsInLockstep_example = run-IsInLockstep accepting 1 day day-LastResumes

run-IsClean_example : IsClean (run accepting day (new_subscription_manager 1)).sent
run-IsClean_example =
    run-IsClean accepting 1 day (tt, ((refl, (refl, tt)), (tt, (tt, (tt, (tt, tt)))))) day-AllResume

abbrev traffic : List (ℕ × SubKey)
traffic = (11, spy_quote) ∷ (12, spy_greeks) ∷ (13, spy_quote) ∷ []

snapshot_canonical_example :
    (snapshot (run accepting day (new_subscription_manager 1))
      ≡ snapshot (run accepting day (new_subscription_manager 1)))
    × IsSorted info_less (snapshot (run accepting day (new_subscription_manager 1)))
    × Permᴰ
        (snapshot (run accepting day (new_subscription_manager 1)))
        (map info_of (run accepting day (new_subscription_manager 1)).state)
snapshot_canonical_example =
    snapshot_canonical accepting 1 day (run accepting day (new_subscription_manager 1))
      (PermD.refl (run accepting day (new_subscription_manager 1)).state)

late_store_breaks_lockstep_example :
    let s = run_schedule accepting late_store (two_adds_one_remove spy_greeks with_spy) in
    (s.pcs 0 ≡ succeeded)
    × (s.pcs 1 ≡ succeeded)
    × (s.pcs 2 ≡ succeeded)
    × (has spy_greeks s.manager.state ≡ true)
    × (on_wire s.manager.sent s.manager.fc spy_greeks ≡ false)
unfolding has
late_store_breaks_lockstep_example =
    late_store_breaks_lockstep accepting (λ fs c add remove. refl) spy_greeks with_spy refl

rebind_drops_add_example :
    let s = run_schedule accepting add_across_rebind (add_and_rebind spy_greeks 2 with_spy) in
    (s.pcs 0 ≡ succeeded)
    × (s.pcs 1 ≡ succeeded)
    × (has spy_greeks s.manager.state ≡ true)
    × (on_wire s.manager.sent s.manager.fc spy_greeks ≡ false)
unfolding has
rebind_drops_add_example =
    rebind_drops_add accepting (λ fs c add remove. refl) spy_greeks 2 with_spy refl refl (λ j. refl)

quote_has-NoDot : NoDot (to_lower "Quote")
unfolding to_lower lower_char
quote_has-NoDot = (refl, (refl, (refl, (refl, (refl, tt)))))

option_subject_has_empty_token_example :
    split b'.' (subject_for "Quote" ("." ++ "SPY250321C580"))
    ≡ "godxfeed" ∷ to_lower "Quote" ∷ "" ∷ split b'.' "SPY250321C580"
option_subject_has_empty_token_example =
    option_subject_has_empty_token "Quote" "SPY250321C580" quote_has-NoDot

shout_has-NoDot : NoDot (to_lower "QUOTE")
unfolding to_lower lower_char
shout_has-NoDot = (refl, (refl, (refl, (refl, (refl, tt)))))

same_subject : subject_for "Quote" "SPY" ≡ subject_for "QUOTE" "SPY"
unfolding subject_for to_lower lower_char
same_subject = refl

subject_for_injective_example :
    (to_lower "Quote" ≡ to_lower "QUOTE") × (◌≡◌ {A = String} "SPY" "SPY")
subject_for_injective_example =
    subject_for_injective "Quote" "QUOTE" "SPY" "SPY" quote_has-NoDot shout_has-NoDot same_subject
