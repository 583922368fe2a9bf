-- ===== src/Subscriptions/Keys.antt =====
-- The map of the manager has at most one entry for a key.
use godxfeed.Common.{ℕ, Option-cases, inl, inr, List, [], ◌∷◌, arith}
use godxfeed.Common.Dict.{Dict, lookup}
use godxfeed.Common.Dict.Unique.{IsUnique, insert-IsUnique, remove-IsUnique}
use godxfeed.Common.Text.{Unicode}
use godxfeed.Subscriptions.{
  SubKey, key_eq, SubState, Manager, FeedSub, FeedController, key_of, fresh_state, register_all,
  unregistered, add_sub, remove_sub, bulk_add, update_subscription, observe, bump, rebind,
}

register_all-IsUnique :
    ⦃u : Unicode⦄ (ps : List FeedSub) (m : Dict SubKey SubState)
    → IsUnique m
    → IsUnique (register_all ps m)
unfolding register_all
register_all-IsUnique [] m h = h
register_all-IsUnique (p ∷ ps) m h =
    register_all-IsUnique ps _
      (ground (arith, insert-IsUnique (key_of p) (fresh_state (key_of p)) m h))

pub observe-IsUnique :
    (nsec : ℕ) (k : SubKey) (m : Manager) → IsUnique m.state → IsUnique (observe nsec k m).state
unfolding observe
observe-IsUnique nsec k m h = elim (Option-cases (lookup k m.state)) [
  | inl absent ↦ rw (absent, observe) h
  | inr (st, found) ↦ rw (found, observe) (insert-IsUnique k (bump nsec st) m.state h)
]

module _ (answer : FeedController) where
  pub rebind-IsUnique :
      (fc : ℕ) (m : Manager) → IsUnique m.state → IsUnique (rebind answer fc m).0.state
  unfolding rebind update_subscription
  rebind-IsUnique fc m h = ground arith

  pub remove_sub-IsUnique :
      (k : SubKey) (m : Manager) → IsUnique m.state → IsUnique (remove_sub answer k m).0.state
  unfolding remove_sub update_subscription
  remove_sub-IsUnique k m h = ground (arith, remove-IsUnique k m.state h)

  module _ ⦃u : Unicode⦄ where
    pub add_sub-IsUnique :
        (k : SubKey) (m : Manager) → IsUnique m.state → IsUnique (add_sub answer k m).0.state
    unfolding add_sub update_subscription
    add_sub-IsUnique k m h = ground (arith, insert-IsUnique k (fresh_state k) m.state h)

    pub bulk_add-IsUnique :
        (ps : List FeedSub) (m : Manager)
        → IsUnique m.state
        → IsUnique (bulk_add answer ps m).0.state
    unfolding bulk_add update_subscription
    bulk_add-IsUnique ps m h =
        ground (arith, register_all-IsUnique (unregistered m.state ps) m.state h)
