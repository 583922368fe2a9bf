-- ===== src/Subscriptions/Counters.antt =====
-- What the counters of a subscription say of the traffic that was observed.
use godxfeed.Common.{
  ℕ, ◌+◌, ◌%◌, ◌^◌, ◌<◌, ◌≡◌, refl, ap, ◌∙◌, none, some, List, [], ◌∷◌, arith, if◌then◌else◌,
  Bool-cases, inl, inr, length, ◌==◌, eqb, Option-cases,
}
use mathlib.Core.Option
use godxfeed.Common.Dict.{lookup, lookup-insert}
use godxfeed.Subscriptions.{SubKey, key_eq, SubState, Manager, bump, observe}

-- The events of a stretch of traffic, each with the time at which it was observed.
unfoldable pub observe_all : List (ℕ × SubKey) → Manager → Manager
observe_all [] m = m
observe_all ((t, k) ∷ es) m = observe_all es (observe t k m)

-- The times of the events of one key.
abbrev pub times_of : SubKey → List (ℕ × SubKey) → List ℕ
times_of k [] = []
times_of k ((t, j) ∷ es) = if j == k then t ∷ times_of k es else times_of k es

abbrev pub last_or : ℕ → List ℕ → ℕ
last_or d [] = d
last_or d (t ∷ ts) = last_or t ts

abbrev pub first_set : ℕ → List ℕ → ℕ
first_set d [] = d
first_set d (t ∷ ts) = first_set (if eqb d 0 then t else d) ts

-- The state after events at these times.
abbrev pub tally : List ℕ → SubState → SubState
tally ts st = record st {
  msg_count = (st.msg_count + length ts) % 2 ^ 64;
  first_seen_at = first_set st.first_seen_at ts;
  last_seen_at = last_or st.last_seen_at ts;
}

pub lookup-observe :
    (t : ℕ) (j k : SubKey) (m : Manager)
    → lookup k (observe t j m).state
      ≡ (if j == k then Option.map (bump t) (lookup k m.state) else lookup k m.state)
unfolding observe
lookup-observe t j k m = elim (Option-cases (lookup j m.state)) [
  | inl absent ↦ rw (absent, observe) (ground (arith, key_eq.beq_iff j k))
  | inr (st, found) ↦
      rw (found, observe)
        (ground (arith, lookup-insert j k (bump t st) m.state, key_eq.beq_iff j k))
]

pub tally-bump : (t : ℕ) (ts : List ℕ) (st : SubState) → tally ts (bump t st) ≡ tally (t ∷ ts) st
tally-bump t ts st = ground arith

-- After any traffic, the counters of a registered key are those of its own events alone: their
-- number is added modulo 2^64, the first set time is kept, and the last time is that of the last
-- event. Keys that are not registered stay so.
lookup-observe_all :
    (es : List (ℕ × SubKey)) (k : SubKey) (m : Manager) (st : SubState)
    → st.msg_count < 2 ^ 64
    → lookup k m.state ≡ some st
    → lookup k (observe_all es m).state ≡ some (tally (times_of k es) st)
unfolding observe_all
lookup-observe_all [] k m st fits h = ground arith
lookup-observe_all ((t, j) ∷ es) k m st fits h = elim (Bool-cases (j == k)) [
  | inl same ↦ rw same (
      lookup-observe_all es k (observe t j m) (bump t st) (omega arith)
        (rw (lookup-observe, same, h) refl)
      ∙ ap some (tally-bump t (times_of k es) st))
  | inr other ↦
      rw other (lookup-observe_all es k (observe t j m) st fits (rw (lookup-observe, other) h))
]

lookup-observe_all-none :
    (es : List (ℕ × SubKey)) (k : SubKey) (m : Manager)
    → lookup k m.state ≡ none
    → lookup k (observe_all es m).state ≡ none
unfolding observe_all
lookup-observe_all-none [] k m h = h
lookup-observe_all-none ((t, j) ∷ es) k m h =
    lookup-observe_all-none es k (observe t j m) (ground (arith, lookup-observe t j k m))
