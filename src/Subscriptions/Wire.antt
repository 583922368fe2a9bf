-- ===== src/Subscriptions/Wire.antt =====
-- The wire's view of the subscription set, and that the manager's map agrees with it.
use godxfeed.Common.{
  ◌≡◌, refl, inl, inr, Bool, true, false, ◌&&◌, none, List, [], ◌∷◌, arith, ◌==◌, if◌then◌else◌,
  eqb, eqb_refl, ℕ, Option-cases,
}
use godxfeed.Common.Dict.{Dict, insert, has, has-insert, has-remove, has_of_lookup, lookup}
use godxfeed.Common.Text.{Unicode}
use godxfeed.Subscriptions.{
  FeedSub, SubKey, key_eq, SubState, Frame, Manager, FeedController, key_of, keys, fresh_state,
  unregistered, register_all, update_subscription, rebind, remove_sub, bulk_add, add_sub, observe,
  bump,
}

abbrev pub mentions : SubKey → List FeedSub → Bool
mentions k [] = false
mentions k (s ∷ ss) = if key_of s == k then true else mentions k ss

-- What the server at the other end of connection `c` is subscribed to after the calls: the newest
-- accepted call on `c` that mentions the key decides.
abbrev pub on_wire : List Frame → ℕ → SubKey → Bool
on_wire [] c k = false
on_wire (f ∷ fs) c k =
    if f.accepted && eqb f.client c
    then (if mentions k f.add then true else if mentions k f.remove then false else on_wire fs c k)
    else on_wire fs c k

-- The manager's map has exactly the subscriptions that the server of its controller has.
pub record IsInLockstep (m : Manager) : Type 0 where
  pub at_key : (k : SubKey) → has k m.state ≡ on_wire m.sent m.fc k

pub mentions-unregistered :
    (m : Dict SubKey SubState) (ps : List FeedSub) (k : SubKey)
    → mentions k (unregistered m ps) ≡ (if has k m then false else mentions k ps)
unfolding unregistered
mentions-unregistered m [] k = ground arith
mentions-unregistered m (p ∷ ps) k =
    ground (arith, mentions-unregistered m ps k, key_eq.beq_iff (key_of p) k)

pub has-register_all :
    ⦃u : Unicode⦄ (ps : List FeedSub) (m : Dict SubKey SubState) (k : SubKey)
    → has k (register_all ps m) ≡ (if mentions k ps then true else has k m)
unfolding register_all
has-register_all [] m k = refl
has-register_all (p ∷ ps) m k = ground (
  arith,
  has-register_all ps m k,
  has-register_all ps (insert (key_of p) (fresh_state (key_of p)) m) k,
  has-insert (key_of p) k (fresh_state (key_of p)) m,
  key_eq.beq_iff (key_of p) k,
)

pub mentions-keys : (m : Dict SubKey SubState) (k : SubKey) → mentions k (keys m) ≡ has k m
unfolding has
mentions-keys [] k = refl
mentions-keys ((j, st) ∷ m) k = ground (arith, mentions-keys m k)

module _ (answer : FeedController) where
  pub remove_sub-IsInLockstep :
      (k : SubKey) {m : Manager} → IsInLockstep m → IsInLockstep (remove_sub answer k m).0
  unfolding remove_sub update_subscription
  remove_sub-IsInLockstep k {m} h = record {
    at_key = λ j. ground (arith, h.at_key j, h.at_key k, has-remove k j m.state, eqb_refl m.fc);
  }

  module _ ⦃u : Unicode⦄ where
    pub add_sub-IsInLockstep :
        (k : SubKey) {m : Manager} → IsInLockstep m → IsInLockstep (add_sub answer k m).0
    unfolding add_sub update_subscription
    add_sub-IsInLockstep k {m} h = record {
      at_key =
          λ j. ground (arith, h.at_key j, has-insert k j (fresh_state k) m.state, eqb_refl m.fc);
    }

    pub bulk_add-IsInLockstep :
        (ps : List FeedSub) {m : Manager} → IsInLockstep m → IsInLockstep (bulk_add answer ps m).0
    unfolding bulk_add update_subscription
    bulk_add-IsInLockstep ps {m} h = record {
      at_key = λ j.
          ground (
            arith,
            h.at_key j,
            has-register_all (unregistered m.state ps) m.state j,
            eqb_refl m.fc,
          );
    }

pub observe-IsInLockstep :
    (nsec : ℕ) (k : SubKey) {m : Manager} → IsInLockstep m → IsInLockstep (observe nsec k m)
unfolding observe
observe-IsInLockstep nsec k {m} h = elim (Option-cases (lookup k m.state)) [
  | inl absent ↦ rw (absent, observe) h
  | inr (st, found) ↦
      rw (found, observe)
        (record {
          at_key = λ j. ground (
            arith,
            h.at_key j,
            has_of_lookup k st m.state found,
            has-insert k j (bump nsec st) m.state,
            key_eq.beq_iff k j,
          );
        })
]

module _ (answer : FeedController) where
  -- A connection that starts with no subscription is brought to the manager's set by one call.
  pub rebind-IsInLockstep :
      (fc : ℕ) (m : Manager)
      → ((k : SubKey) → on_wire m.sent fc k ≡ false)
      → (rebind answer fc m).1 ≡ none
      → IsInLockstep (rebind answer fc m).0
  unfolding rebind update_subscription
  rebind-IsInLockstep fc m new done = record {
    at_key = λ j. ground (arith, new j, mentions-keys m.state j, eqb_refl fc);
  }
