-- ===== src/Subscriptions/Interleaving/Effects.antt =====
-- What one atomic step does to one key, where no key is both added and removed.
use godxfeed.Common.{
  ◌≡◌, Bool, true, false, ◌||◌, [], ◌∷◌, arith, ◌==◌, if◌then◌else◌, eqb_refl, is_empty,
}
use godxfeed.Common.Dict.{has, has-insert, has-remove}
use godxfeed.Common.Text.{Unicode}
use godxfeed.Subscriptions.{
  SubKey, key_eq, Manager, FeedController, sub_of, fresh_state, unregistered, update_subscription,
}
use godxfeed.Subscriptions.Wire.{mentions, on_wire, mentions-unregistered, has-register_all}
use godxfeed.Subscriptions.Interleaving.{
  Pc, add_check, add_send, add_commit, bulk_check, bulk_send, bulk_commit, remove_check,
  remove_send, remove_commit, rebind_swap, rebind_send, returned, succeeded, after_call, call, step,
}

-- The goroutine has had the key taken by the controller, and has yet to store it.
abbrev pub adds_due : Pc → SubKey → Bool
adds_due (add_commit k) j = k == j
adds_due (bulk_commit ps) j = mentions j ps
adds_due _ j = false

-- It has had the key dropped by the controller, and has yet to delete it.
abbrev pub drops_due : Pc → SubKey → Bool
drops_due (remove_commit k) j = k == j
drops_due _ j = false

-- What the server is subscribed to on the connection that the manager has.
abbrev pub wired : Manager → SubKey → Bool
wired m j = on_wire m.sent m.fc j

module _ (added : SubKey → Bool) where
  -- The goroutine is in Add or BulkAdd of keys that are `added`, or in Remove of one that is not.
  abbrev pub KeepsSides : Pc → Type 0
  KeepsSides (add_check k) = added k ≡ true
  KeepsSides (add_send k) = added k ≡ true
  KeepsSides (add_commit k) = added k ≡ true
  KeepsSides (bulk_check ps) = (j : SubKey) → mentions j ps ≡ true → added j ≡ true
  KeepsSides (bulk_send ps) = (j : SubKey) → mentions j ps ≡ true → added j ≡ true
  KeepsSides (bulk_commit ps) = (j : SubKey) → mentions j ps ≡ true → added j ≡ true
  KeepsSides (remove_check k) = added k ≡ false
  KeepsSides (remove_send k) = added k ≡ false
  KeepsSides (remove_commit k) = added k ≡ false
  KeepsSides (returned e) = Unit
  KeepsSides _ = ⊥

  KeepsSides-if :
      (b : Bool) (p q : Pc) → KeepsSides p → KeepsSides q → KeepsSides (if b then p else q)
  KeepsSides-if true p q hp hq = hp
  KeepsSides-if false p q hp hq = hq

  KeepsSides-after_call :
      (r : Manager × Bool) (next : Pc) → KeepsSides next → KeepsSides (after_call r next).1
  KeepsSides-after_call (m, true) next h = h
  KeepsSides-after_call (m, false) next h = tt

  module _ ⦃u : Unicode⦄ (answer : FeedController) where
    pub step-KeepsSides : (pc : Pc) (m : Manager) → KeepsSides pc → KeepsSides (step answer pc m).1
    unfolding step update_subscription
    step-KeepsSides (add_check k) m h = KeepsSides-if (has k m.state) succeeded (add_send k) tt h
    step-KeepsSides (add_send k) m h =
        KeepsSides-after_call (call answer (sub_of k ∷ []) [] m) (add_commit k) h
    step-KeepsSides (add_commit k) m h = tt
    step-KeepsSides (bulk_check ps) m h =
        let fresh = unregistered m.state ps in
        KeepsSides-if (is_empty fresh) succeeded (bulk_send fresh) tt
          (λ j e. h j (ground (arith, e, mentions-unregistered m.state ps j)))
    step-KeepsSides (bulk_send ps) m h =
        KeepsSides-after_call (call answer ps [] m) (bulk_commit ps) h
    step-KeepsSides (bulk_commit ps) m h = tt
    step-KeepsSides (remove_check k) m h =
        KeepsSides-if (has k m.state) (remove_send k) succeeded h tt
    step-KeepsSides (remove_send k) m h =
        KeepsSides-after_call (call answer [] (sub_of k ∷ []) m) (remove_commit k) h
    step-KeepsSides (remove_commit k) m h = tt
    step-KeepsSides (rebind_swap fc) m h = elim h [ ]
    step-KeepsSides (rebind_send fc subs) m h = elim h [ ]
    step-KeepsSides (returned e) m h = tt

    -- A key that is added.
    pub record AddEffect (j : SubKey) (pc pc' : Pc) (m m' : Manager) : Type 0 where
      pub stays_wired : wired m j ≡ true → wired m' j ≡ true
      pub stays_known : has j m.state ≡ true → has j m'.state ≡ true
      pub stored : adds_due pc j ≡ true → has j m'.state ≡ true
      pub taken : adds_due pc' j ≡ true → wired m' j ≡ true
      pub from_due : has j m'.state ≡ true → (has j m.state || adds_due pc j) ≡ true
      pub to_due : wired m' j ≡ true → (wired m j || adds_due pc' j) ≡ true

    pub step-AddEffect :
        (pc : Pc) (m : Manager) (j : SubKey)
        → KeepsSides pc
        → added j ≡ true
        → (adds_due pc j ≡ true → wired m j ≡ true)
        → AddEffect j pc (step answer pc m).1 m (step answer pc m).0
    unfolding step update_subscription
    step-AddEffect (add_check k) m j h a due = ground arith
    step-AddEffect (add_send k) m j h a due = ground (arith, eqb_refl m.fc, key_eq.beq_iff k j)
    step-AddEffect (add_commit k) m j h a due =
        ground (arith, key_eq.beq_iff k j, has-insert k j (fresh_state k) m.state)
    step-AddEffect (bulk_check ps) m j h a due = ground arith
    step-AddEffect (bulk_send ps) m j h a due = ground (arith, eqb_refl m.fc, h j)
    step-AddEffect (bulk_commit ps) m j h a due = ground (arith, has-register_all ps m.state j)
    step-AddEffect (remove_check k) m j h a due = ground arith
    step-AddEffect (remove_send k) m j h a due = ground (arith, eqb_refl m.fc, key_eq.beq_iff k j)
    step-AddEffect (remove_commit k) m j h a due =
        ground (arith, key_eq.beq_iff k j, has-remove k j m.state)
    step-AddEffect (rebind_swap fc) m j h a due = elim h [ ]
    step-AddEffect (rebind_send fc subs) m j h a due = elim h [ ]
    step-AddEffect (returned e) m j h a due = ground arith

    -- A key that is removed.
    pub record DropEffect (j : SubKey) (pc pc' : Pc) (m m' : Manager) : Type 0 where
      pub stays_unwired : wired m j ≡ false → wired m' j ≡ false
      pub stays_known : has j m'.state ≡ true → has j m.state ≡ true
      pub deleted : drops_due pc j ≡ true → has j m'.state ≡ false
      pub dropped : drops_due pc' j ≡ true → wired m' j ≡ false
      pub from_due : has j m.state ≡ true → (has j m'.state || drops_due pc j) ≡ true
      pub to_due : wired m j ≡ true → (wired m' j || drops_due pc' j) ≡ true

    pub step-DropEffect :
        (pc : Pc) (m : Manager) (j : SubKey)
        → KeepsSides pc
        → added j ≡ false
        → (drops_due pc j ≡ true → wired m j ≡ false)
        → DropEffect j pc (step answer pc m).1 m (step answer pc m).0
    unfolding step update_subscription
    step-DropEffect (add_check k) m j h a due = ground arith
    step-DropEffect (add_send k) m j h a due = ground (arith, eqb_refl m.fc, key_eq.beq_iff k j)
    step-DropEffect (add_commit k) m j h a due =
        ground (arith, key_eq.beq_iff k j, has-insert k j (fresh_state k) m.state)
    step-DropEffect (bulk_check ps) m j h a due = ground arith
    step-DropEffect (bulk_send ps) m j h a due = ground (arith, eqb_refl m.fc, h j)
    step-DropEffect (bulk_commit ps) m j h a due =
        ground (arith, has-register_all ps m.state j, h j)
    step-DropEffect (remove_check k) m j h a due = ground arith
    step-DropEffect (remove_send k) m j h a due = ground (arith, eqb_refl m.fc, key_eq.beq_iff k j)
    step-DropEffect (remove_commit k) m j h a due =
        ground (arith, key_eq.beq_iff k j, has-remove k j m.state)
    step-DropEffect (rebind_swap fc) m j h a due = elim h [ ]
    step-DropEffect (rebind_send fc subs) m j h a due = elim h [ ]
    step-DropEffect (returned e) m j h a due = ground arith
