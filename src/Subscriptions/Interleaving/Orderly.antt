-- ===== src/Subscriptions/Interleaving/Orderly.antt =====
-- Goroutines in Add, BulkAdd and Remove at once, in any order of their steps.
use godxfeed.Common.{
  ℕ, ◌≡◌, sym, ◌∙◌, ◌⊎◌, inl, inr, Bool, true, false, List, [], ◌∷◌, arith, if◌then◌else◌, eqb,
  eqb_refl, eqb→eq, Bool-cases,
}
use godxfeed.Common.Dict.{has}
use godxfeed.Common.Text.{Unicode}
use godxfeed.Subscriptions.{SubKey, key_eq, Manager, FeedController}
use godxfeed.Subscriptions.Wire.{IsInLockstep}
use godxfeed.Subscriptions.Interleaving.{Pc, System, step, advance, run_schedule}
use godxfeed.Subscriptions.Interleaving.Effects.{
  adds_due, drops_due, wired, KeepsSides, step-KeepsSides, AddEffect, step-AddEffect, DropEffect,
  step-DropEffect,
}

-- No call is half done.
abbrev pub IsIdle : Pc → Type 0
IsIdle pc = (j : SubKey) → (adds_due pc j ≡ false) × (drops_due pc j ≡ false)

module _ (added : SubKey → Bool) where
  -- What differs between the map and the wire is what a goroutine is about to store or to delete.
  record IsOrderly (s : System) : Type 0 where
    sides : (i : ℕ) → KeepsSides added (s.pcs i)
    taken :
        (i : ℕ) (j : SubKey)
        → added j ≡ true
        → adds_due (s.pcs i) j ≡ true
        → wired s.manager j ≡ true
    dropped :
        (i : ℕ) (j : SubKey)
        → added j ≡ false
        → drops_due (s.pcs i) j ≡ true
        → wired s.manager j ≡ false
    known : (j : SubKey) → added j ≡ true → has j s.manager.state ≡ true → wired s.manager j ≡ true
    unknown :
        (j : SubKey)
        → added j ≡ true
        → wired s.manager j ≡ true
        → (has j s.manager.state ≡ true) ⊎ ((i : ℕ) × (adds_due (s.pcs i) j ≡ true))
    kept : (j : SubKey) → added j ≡ false → wired s.manager j ≡ true → has j s.manager.state ≡ true
    unkept :
        (j : SubKey)
        → added j ≡ false
        → has j s.manager.state ≡ true
        → (wired s.manager j ≡ true) ⊎ ((i : ℕ) × (drops_due (s.pcs i) j ≡ true))

  module _ ⦃u : Unicode⦄ (answer : FeedController) (s : System) (h : IsOrderly s) (i : ℕ) where
    abbrev m' : Manager
    m' = (step answer (s.pcs i) s.manager).0

    abbrev pc' : Pc
    pc' = (step answer (s.pcs i) s.manager).1

    abbrev pcs' : ℕ → Pc
    pcs' n = if eqb i n then pc' else s.pcs n

    add_effect : (j : SubKey) → added j ≡ true → AddEffect added answer j (s.pcs i) pc' s.manager m'
    add_effect j a = step-AddEffect added answer (s.pcs i) s.manager j (h.sides i) a (h.taken i j a)

    drop_effect :
        (j : SubKey) → added j ≡ false → DropEffect added answer j (s.pcs i) pc' s.manager m'
    drop_effect j a =
        step-DropEffect added answer (s.pcs i) s.manager j (h.sides i) a (h.dropped i j a)

    advance-sides : (n : ℕ) → KeepsSides added (pcs' n)
    advance-sides n = elim (Bool-cases (eqb i n)) [
      | inl e ↦ rw e (step-KeepsSides added answer (s.pcs i) s.manager (h.sides i))
      | inr e ↦ rw e (h.sides n)
    ]

    advance-taken :
        (n : ℕ) (j : SubKey) → added j ≡ true → adds_due (pcs' n) j ≡ true → wired m' j ≡ true
    advance-taken n j a = elim (Bool-cases (eqb i n)) [
      | inl e ↦ rw e (add_effect j a).taken
      | inr e ↦ rw e (λ due. (add_effect j a).stays_wired (h.taken n j a due))
    ]

    -- A pending store of another goroutine is still pending; one of this one is done.
    still_due :
        (n : ℕ) (j : SubKey)
        → added j ≡ true
        → adds_due (s.pcs n) j ≡ true
        → (has j m'.state ≡ true) ⊎ (adds_due (pcs' n) j ≡ true)
    still_due n j a due = elim (Bool-cases (eqb i n)) [
      | inl e ↦ inl ((add_effect j a).stored (rw (eqb→eq i n e) due))
      | inr e ↦ inr (rw e due)
    ]

    advance-unknown :
        (j : SubKey)
        → added j ≡ true
        → wired m' j ≡ true
        → (has j m'.state ≡ true) ⊎ ((n : ℕ) × (adds_due (pcs' n) j ≡ true))
    advance-unknown j a w = elim (Bool-cases (wired s.manager j)) [
      | inr e ↦ inr (i, rw (eqb_refl i) (ground (arith, (add_effect j a).to_due w, e)))
      | inl e ↦ elim (h.unknown j a e) [
        | inl k ↦ inl ((add_effect j a).stays_known k)
        | inr (n, due) ↦ elim (still_due n j a due) [ inl k ↦ inl k | inr d ↦ inr (n, d) ]
      ]
    ]

    advance-known : (j : SubKey) → added j ≡ true → has j m'.state ≡ true → wired m' j ≡ true
    advance-known j a k = elim (Bool-cases (has j s.manager.state)) [
      | inl e ↦ (add_effect j a).stays_wired (h.known j a e)
      | inr e ↦
          (add_effect j a).stays_wired
            (h.taken i j a (ground (arith, (add_effect j a).from_due k, e)))
    ]

    advance-dropped :
        (n : ℕ) (j : SubKey) → added j ≡ false → drops_due (pcs' n) j ≡ true → wired m' j ≡ false
    advance-dropped n j a = elim (Bool-cases (eqb i n)) [
      | inl e ↦ rw e (drop_effect j a).dropped
      | inr e ↦ rw e (λ due. (drop_effect j a).stays_unwired (h.dropped n j a due))
    ]

    advance-kept : (j : SubKey) → added j ≡ false → wired m' j ≡ true → has j m'.state ≡ true
    advance-kept j a w = elim (Bool-cases (wired s.manager j)) [
      | inr e ↦ absurd (ground (arith, (drop_effect j a).stays_unwired e, w))
      | inl e ↦ elim (Bool-cases (drops_due (s.pcs i) j)) [
        | inl due ↦ absurd (ground (arith, h.dropped i j a due, e))
        | inr none_due ↦ ground (arith, (drop_effect j a).from_due (h.kept j a e), none_due)
      ]
    ]

    advance-unkept :
        (j : SubKey)
        → added j ≡ false
        → has j m'.state ≡ true
        → (wired m' j ≡ true) ⊎ ((n : ℕ) × (drops_due (pcs' n) j ≡ true))
    advance-unkept j a k = elim (h.unkept j a ((drop_effect j a).stays_known k)) [
      | inl w ↦ elim (Bool-cases (wired m' j)) [
        | inl w' ↦ inl w'
        | inr e ↦ inr (i, rw (eqb_refl i) (ground (arith, (drop_effect j a).to_due w, e)))
      ]
      | inr (n, due) ↦ elim (Bool-cases (eqb i n)) [
        | inl e ↦ absurd (ground (arith, (drop_effect j a).deleted (rw (eqb→eq i n e) due), k))
        | inr e ↦ inr (n, rw e due)
      ]
    ]

  module _ ⦃u : Unicode⦄ (answer : FeedController) where
    advance-IsOrderly : (s : System) (i : ℕ) → IsOrderly s → IsOrderly (advance answer i s)
    unfolding advance
    advance-IsOrderly s i h = record {
      sides = advance-sides answer s h i;
      taken = advance-taken answer s h i;
      dropped = advance-dropped answer s h i;
      known = advance-known answer s h i;
      unknown = advance-unknown answer s h i;
      kept = advance-kept answer s h i;
      unkept = advance-unkept answer s h i;
    }

    run_schedule-IsOrderly :
        (is : List ℕ) (s : System) → IsOrderly s → IsOrderly (run_schedule answer is s)
    unfolding run_schedule
    run_schedule-IsOrderly [] s h = h
    run_schedule-IsOrderly (i ∷ is) s h =
        run_schedule-IsOrderly is (advance answer i s) (advance-IsOrderly s i h)

    IsOrderly-idle :
        (s : System) → IsOrderly s → ((i : ℕ) → IsIdle (s.pcs i)) → IsInLockstep s.manager
    IsOrderly-idle s h idle = record { at_key = at_key }
      where
        at_key : (j : SubKey) → has j s.manager.state ≡ wired s.manager j
        at_key j = elim (Bool-cases (added j)) [
          | inl a ↦ elim (Bool-cases (wired s.manager j)) [
            | inl w ↦ elim (h.unknown j a w) [
              | inl k ↦ k ∙ sym w
              | inr (i, due) ↦ absurd (ground (arith, (idle i j).0, due))
            ]
            | inr w ↦ ground (arith, w, h.known j a)
          ]
          | inr a ↦ elim (Bool-cases (has j s.manager.state)) [
            | inl k ↦ elim (h.unkept j a k) [
              | inl w ↦ k ∙ sym w
              | inr (i, due) ↦ absurd (ground (arith, (idle i j).1, due))
            ]
            | inr k ↦ ground (arith, k, h.kept j a)
          ]
        ]

    -- Any number of goroutines that each start an Add, a BulkAdd or a Remove, no key being both added
    -- and removed, in any order of their steps and whatever the controller answers: when no call is
    -- between the answer and the change of the map, the map has a key exactly if the server has it.
    pub run_schedule-IsInLockstep :
        (is : List ℕ) (s : System)
        → IsInLockstep s.manager
        → ((i : ℕ) → KeepsSides added (s.pcs i))
        → ((i : ℕ) → IsIdle (s.pcs i))
        → ((i : ℕ) → IsIdle ((run_schedule answer is s).pcs i))
        → IsInLockstep (run_schedule answer is s).manager
    run_schedule-IsInLockstep is s h sides idle done =
        IsOrderly-idle (run_schedule answer is s) (run_schedule-IsOrderly is s start) done
      where
        start : IsOrderly s
        start = record {
          sides = sides;
          taken = λ i j a due. absurd (ground (arith, (idle i j).0, due));
          dropped = λ i j a due. absurd (ground (arith, (idle i j).1, due));
          known = λ j a k. sym (h.at_key j) ∙ k;
          unknown = λ j a w. inl (h.at_key j ∙ w);
          kept = λ j a w. h.at_key j ∙ w;
          unkept = λ j a k. inl (sym (h.at_key j) ∙ k);
        }
