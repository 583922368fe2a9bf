-- ===== src/Subscriptions/Interleaving/Races.antt =====
-- Orders of steps after which the map and the wire disagree, though every call returned nil.
use godxfeed.Common.{
  ℕ, zero, suc, ◌≡◌, refl, true, false, none, List, [], ◌∷◌, eqb_refl, eqb, Bool-cases, is_empty,
  inl, inr,
}
use godxfeed.Common.Dict.{has, has-insert, has-remove}
use text.Mathlib.TextPositions.{compare_refl}
use godxfeed.Common.Text.{Unicode}
use godxfeed.Subscriptions.{
  FeedSub, SubKey, key_eq, Manager, FeedController, Frame, keys, update_subscription,
}
use godxfeed.Subscriptions.Wire.{on_wire, mentions-keys}
use godxfeed.Subscriptions.Interleaving.{
  System, add_check, remove_check, rebind_swap, succeeded, step, advance, run_schedule,
}

-- Goroutines 0 and 1 are in Add of `k`, and goroutine 2 in Remove of `k`.
abbrev pub two_adds_one_remove : SubKey → Manager → System
two_adds_one_remove k m = record {
  manager = m;
  pcs = elim [
    | zero ↦ add_check k
    | suc n ↦ elim n [ zero ↦ add_check k | suc r ↦ remove_check k ]
  ];
}

-- 0 and 1 find no entry, both send, 1 stores; 2 removes from the wire and the map; 0 stores.
abbrev pub late_store : List ℕ
late_store = 0 ∷ 1 ∷ 0 ∷ 1 ∷ 1 ∷ 2 ∷ 2 ∷ 2 ∷ 0 ∷ []

-- Goroutine 0 is in Add of `k`, and goroutine 1 rebinds the manager to `fc` after a reconnect.
abbrev pub add_and_rebind : SubKey → ℕ → Manager → System
add_and_rebind k fc m = record {
  manager = m;
  pcs = elim [ zero ↦ add_check k | suc n ↦ rebind_swap fc ];
}

-- 0 sends on the old connection; 1 replays the map on the new one; 0 stores.
abbrev pub add_across_rebind : List ℕ
add_across_rebind = 0 ∷ 0 ∷ 1 ∷ 1 ∷ 0 ∷ []

module _ ⦃u : Unicode⦄ (answer : FeedController)
    (accepts : (fs : List Frame) (c : ℕ) (add remove : List FeedSub)
      → answer fs c add remove ≡ none) where
  -- With a controller that accepts every call: two Adds of a key that is not registered and one
  -- Remove of it can all return nil, and leave the key in the map and not on the wire.
  pub late_store_breaks_lockstep :
      (k : SubKey) (m : Manager)
      → has k m.state ≡ false
      → let s = run_schedule answer late_store (two_adds_one_remove k m) in
        (s.pcs 0 ≡ succeeded)
        × (s.pcs 1 ≡ succeeded)
        × (s.pcs 2 ≡ succeeded)
        × (has k s.manager.state ≡ true)
        × (on_wire s.manager.sent s.manager.fc k ≡ false)
  unfolding run_schedule advance step update_subscription
  late_store_breaks_lockstep k m new =
      simp (new, accepts, has-insert, has-remove, compare_refl, eqb_refl)
        (refl, refl, refl, refl, refl)

  -- With a controller that accepts every call: an Add of a key that is not registered and a Rebind
  -- to another, unused connection can both return nil, and leave the key in the map and not on the
  -- wire of that connection.
  pub rebind_drops_add :
      (k : SubKey) (fc : ℕ) (m : Manager)
      → eqb m.fc fc ≡ false
      → has k m.state ≡ false
      → ((j : SubKey) → on_wire m.sent fc j ≡ false)
      → let s = run_schedule answer add_across_rebind (add_and_rebind k fc m) in
        (s.pcs 0 ≡ succeeded)
        × (s.pcs 1 ≡ succeeded)
        × (has k s.manager.state ≡ true)
        × (on_wire s.manager.sent s.manager.fc k ≡ false)
  unfolding run_schedule advance step update_subscription
  rebind_drops_add k fc m other new fresh = elim (Bool-cases (is_empty (keys m.state))) [
    | inl nothing ↦
        simp (new, accepts, nothing, has-insert, compare_refl, other, fresh)
          (refl, refl, refl, refl)
    | inr something ↦
        simp
          (new, accepts, something, mentions-keys, has-insert, compare_refl, eqb_refl, other, fresh)
          (refl, refl, refl, refl)
  ]
