-- ===== src/Subscriptions/Interleaving.antt =====
-- Calls of one manager from several goroutines. Each method takes the lock twice and calls the
-- controller in between, so it is three atomic steps: look at the map, call, change the map.
pub mod Races
pub mod Effects
pub mod Orderly
use godxfeed.Common.{
  ℕ, ◌≡◌, Bool, true, false, not, Option, none, some, List, [], ◌∷◌, if◌then◌else◌, eqb, is_some,
  is_empty,
}
use godxfeed.Common.Dict.{insert, remove, has}
use godxfeed.Common.Text.{Unicode}
use godxfeed.Subscriptions.{
  FeedSub, SubKey, key_eq, Manager, FeedController, sub_of, keys, fresh_state, unregistered,
  register_all, update_subscription,
}

-- Where a goroutine stands in Add, BulkAdd, Remove or Rebind.
pub data Pc : Type 0 where
  add_check add_send add_commit : SubKey → Pc
  bulk_check bulk_send bulk_commit : List FeedSub → Pc
  remove_check remove_send remove_commit : SubKey → Pc
  rebind_swap : ℕ → Pc
  rebind_send : ℕ → List FeedSub → Pc
  returned : Bool → Pc

-- The method returned nil, or an error.
abbrev pub succeeded : Pc
succeeded = returned true

abbrev failed : Pc
failed = returned false

-- The goroutine goes on if the controller returned nil.
abbrev after_call : Manager × Bool → Pc → Manager × Pc
after_call (m, true) next = (m, next)
after_call (m, false) next = (m, failed)

pub record System : Type 0 where
  pub manager : Manager
  pub pcs : ℕ → Pc

module _ (answer : FeedController) where
  abbrev pub call : List FeedSub → List FeedSub → Manager → Manager × Bool
  call add remove m = let (m', e) = update_subscription answer add remove m in (m', not (is_some e))

  module _ ⦃u : Unicode⦄ where
    -- One atomic step of a goroutine.
    unfoldable pub step : Pc → Manager → Manager × Pc
    step (add_check k) m = (m, if has k m.state then succeeded else add_send k)
    step (add_send k) m = after_call (call (sub_of k ∷ []) [] m) (add_commit k)
    step (add_commit k) m = (
      record m { state = if has k m.state then m.state else insert k (fresh_state k) m.state },
      succeeded,
    )
    step (bulk_check ps) m =
        let fresh = unregistered m.state ps in
        (m, if is_empty fresh then succeeded else bulk_send fresh)
    step (bulk_send ps) m = after_call (call ps [] m) (bulk_commit ps)
    step (bulk_commit ps) m = (record m { state = register_all ps m.state }, succeeded)
    step (remove_check k) m = (m, if has k m.state then remove_send k else succeeded)
    step (remove_send k) m = after_call (call [] (sub_of k ∷ []) m) (remove_commit k)
    step (remove_commit k) m = (record m { state = remove k m.state }, succeeded)
    step (rebind_swap fc) m =
        let bound = record m { fc = fc } in
        (bound, if is_empty (keys m.state) then succeeded else rebind_send fc (keys m.state))
    step (rebind_send fc subs) m =
        after_call
          (let (m', sent) = call subs [] (record m { fc = fc }) in (record m' { fc = m.fc }, sent))
          succeeded
    step (returned e) m = (m, returned e)

    -- Goroutine `i` makes its next step.
    unfoldable pub advance : ℕ → System → System
    advance i s =
        let (m, pc) = step (s.pcs i) s.manager in
        record { manager = m; pcs = λ j. if eqb i j then pc else s.pcs j }

    unfoldable pub run_schedule : List ℕ → System → System
    run_schedule [] s = s
    run_schedule (i ∷ is) s = run_schedule is (advance i s)
