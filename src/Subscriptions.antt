-- ===== src/Subscriptions.antt =====
-- service/subscriptions.go: the single owner of the dxLink subscription set. A method takes the
-- manager and returns it changed, with its `error`: `none` is nil.
pub mod Wire
pub mod Keys
pub mod History
pub mod Counters
pub mod Snapshot
pub mod Interleaving
use Prim.Native.Nat.{ℕ, ◌+◌, ◌%◌, ◌^◌}
use godxfeed.Common.{
  String, ◌≡◌, ◌↔◌, Bool, true, false, ◌&&◌, ◌||◌, not, Option, none, some, List, [], ◌∷◌, ◌++◌,
  map, arith, Eq, ◌==◌, string_eq, if◌then◌else◌, is_some, is_empty, eqb,
}
use text.Mathlib.TextEquality.{eq_iff}
use godxfeed.Common.Dict.{Dict, lookup, insert, remove, has}
use godxfeed.Common.Outcome.{Error, wrap, str}
use godxfeed.Common.Text.{Unicode, str_lt}
use godxfeed.Common.Sort.{sort_slice}
use godxfeed.Subject.{subject_for}

-- dxclient.FeedSub
pub record FeedSub : Type 0 where
  pub event : String
  pub symbol : String

pub record SubKey : Type 0 where
  pub event : String
  pub symbol : String

abbrev pub key_beq : SubKey → SubKey → Bool
key_beq a b = a.event == b.event && a.symbol == b.symbol

pub key_beq_iff : (a b : SubKey) → (key_beq a b ≡ true) ↔ (a ≡ b)
key_beq_iff a b = ground (arith, eq_iff a.event b.event, eq_iff a.symbol b.symbol)

instance abbrev pub key_eq : Eq SubKey
key_eq = record { beq = key_beq; beq_iff = key_beq_iff }

-- The counters are int64: their bit patterns. The times are nanoseconds, and 0 is "unset".
pub record SubState : Type 0 where
  pub subject : String
  pub msg_count : ℕ
  pub first_seen_at : ℕ
  pub last_seen_at : ℕ

pub record SubscriptionInfo : Type 0 where
  pub event : String
  pub symbol : String
  pub subject : String
  pub msg_count : ℕ
  pub first_seen_at : Option ℕ
  pub last_seen_at : Option ℕ

-- One call of `UpdateSubscription`: the controller it went to, its arguments, and whether it
-- returned nil.
pub record Frame : Type 0 where
  pub client : ℕ
  pub add : List FeedSub
  pub remove : List FeedSub
  pub accepted : Bool

-- `fc` identifies the controller (a connection). `sent` is the history of calls, newest first: the
-- source keeps no such field, the dxLink server sees it.
pub record Manager : Type 0 where
  pub fc : ℕ
  pub state : Dict SubKey SubState
  pub sent : List Frame

-- What a controller answers to a call, which may depend on all calls before.
abbrev pub FeedController : Type 0
FeedController = List Frame → ℕ → List FeedSub → List FeedSub → Option Error

abbrev pub key_of : FeedSub → SubKey
key_of s = record { event = s.event; symbol = s.symbol }

abbrev pub sub_of : SubKey → FeedSub
sub_of k = record { event = k.event; symbol = k.symbol }

abbrev pub keys : Dict SubKey SubState → List FeedSub
keys [] = []
keys ((k, st) ∷ m) = sub_of k ∷ keys m

-- NewSubscriptionManager
unfoldable pub new_subscription_manager : ℕ → Manager
new_subscription_manager fc = record { fc = fc; state = []; sent = [] }

-- &subState{subject: SubjectFor(event, symbol)}
unfoldable pub fresh_state : ⦃u : Unicode⦄ → SubKey → SubState
fresh_state k = record {
  subject = subject_for k.event k.symbol;
  msg_count = 0;
  first_seen_at = 0;
  last_seen_at = 0;
}

-- The first loop of BulkAdd: the pairs that are not registered, repetitions kept.
unfoldable pub unregistered : Dict SubKey SubState → List FeedSub → List FeedSub
unregistered m [] = []
unregistered m (p ∷ ps) =
    let rest = unregistered m ps in if has (key_of p) m then rest else p ∷ rest

-- The last loop of BulkAdd.
unfoldable pub register_all :
    ⦃u : Unicode⦄ → List FeedSub → Dict SubKey SubState → Dict SubKey SubState
register_all [] m = m
register_all (p ∷ ps) m =
    register_all ps (if has (key_of p) m then m else insert (key_of p) (fresh_state (key_of p)) m)

module _ (answer : FeedController) where
  -- m.fc.UpdateSubscription(add, remove)
  unfoldable pub update_subscription :
      List FeedSub → List FeedSub → Manager → Manager × Option Error
  update_subscription add remove m =
      let e = answer m.sent m.fc add remove in
      (
        record m {
          sent =
              record { client = m.fc; add = add; remove = remove; accepted = not (is_some e) }
              ∷ m.sent;
        },
        e,
      )

  unfoldable pub rebind : ℕ → Manager → Manager × Option Error
  rebind fc m =
      let subs = keys m.state in
      let bound = record m { fc = fc } in
      if is_empty subs then (bound, none) else update_subscription subs [] bound

  unfoldable pub remove_sub : SubKey → Manager → Manager × Option Error
  remove_sub k m =
      if not (has k m.state)
      then (m, none)
      else let (m', e) = update_subscription [] (sub_of k ∷ []) m in
        elim e [
          | some x ↦ (
            m',
            some (wrap "subscriptions: remove %s/%s: %w" (str k.event ∷ str k.symbol ∷ []) x),
          )
          | none ↦ (record m' { state = remove k m'.state }, none)
        ]

  module _ ⦃u : Unicode⦄ where
    unfoldable pub bulk_add : List FeedSub → Manager → Manager × Option Error
    bulk_add pairs m =
        let fresh = unregistered m.state pairs in
        if is_empty pairs || is_empty fresh
        then (m, none)
        else let (m', e) = update_subscription fresh [] m in
          elim e [
            | some x ↦ (m', some (wrap "subscriptions: bulk add: %w" [] x))
            | none ↦ (record m' { state = register_all fresh m'.state }, none)
          ]

    unfoldable pub add_sub : SubKey → Manager → Manager × Option Error
    add_sub k m =
        if has k m.state
        then (m, none)
        else let (m', e) = update_subscription (sub_of k ∷ []) [] m in
          elim e [
            | some x ↦
                (m', some (wrap "subscriptions: add %s/%s: %w" (str k.event ∷ str k.symbol ∷ []) x))
            | none ↦ (
              record m' {
                state = if has k m'.state then m'.state else insert k (fresh_state k) m'.state;
              },
              none,
            )
          ]

-- Observe, at the time `nsec`.
abbrev pub bump : ℕ → SubState → SubState
bump nsec st = record st {
  msg_count = (st.msg_count + 1) % 2 ^ 64;
  first_seen_at = if eqb st.first_seen_at 0 then nsec else st.first_seen_at;
  last_seen_at = nsec;
}

unfoldable pub observe : ℕ → SubKey → Manager → Manager
observe nsec k m = elim (lookup k m.state) [
  | none ↦ m
  | some st ↦ record m { state = insert k (bump nsec st) m.state }
]

abbrev unix_time : ℕ → Option ℕ
unix_time n = if eqb n 0 then none else some n

unfoldable pub info_of : SubKey × SubState → SubscriptionInfo
info_of (k, st) = record {
  event = k.event;
  symbol = k.symbol;
  subject = st.subject;
  msg_count = st.msg_count;
  first_seen_at = unix_time st.first_seen_at;
  last_seen_at = unix_time st.last_seen_at;
}

-- The comparison that Snapshot sorts by.
unfoldable pub info_less : SubscriptionInfo → SubscriptionInfo → Bool
info_less a b =
    if not (a.event == b.event) then str_lt a.event b.event else str_lt a.symbol b.symbol

unfoldable pub snapshot : Manager → List SubscriptionInfo
unfolding info_of info_less
snapshot m = sort_slice info_less (map info_of m.state)
