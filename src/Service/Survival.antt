-- ===== src/Service/Survival.antt =====
-- What a reconnect, however long, keeps and reaches, and what its outcome says.
use godxfeed.Common.{
  not, ◌&&◌, eqb, eqb_refl, ℕ, ◌+◌, String, ◌≡◌, refl, ◌∙◌, Bool, true, false, none, some, List, [],
  ◌∷◌, arith, ◌||◌, ◌++◌, string_eq, Option-cases, Bool-cases, inl, inr, length,
}
use godxfeed.Common.Outcome.{Error}
use godxfeed.Backoff.{Backoff, next}
use godxfeed.Subscriptions.{FeedController}
use godxfeed.Service.{Service}
use godxfeed.Service.Reconnect.{
  Round, Reconnection, retrying, aborted, reconnected, note_attempt, try_attempt, reconnect_loop,
}
use godxfeed.Service.Attempts.{
  is_dropped, IsWorking, Accepts, try_attempt_keeps, try_attempt_connects, try_attempt_drops,
  try_attempt_keeps_dropped, working_attempt,
}
use godxfeed.Service.Connections.{registered}

-- Whether ctx is done in one of the rounds.
unfoldable pub has_cancelled : List Round → Bool
has_cancelled [] = false
has_cancelled (r ∷ rs) = r.cancelled || has_cancelled rs

-- In every round ctx is not done, and the round's client was dropped.
unfoldable pub all_failed : List Round → List ℕ → Bool
all_failed [] dropped = true
all_failed (r ∷ rs) dropped =
    not r.cancelled && is_dropped r.attempt.client dropped && all_failed rs dropped

-- ctx is done in some round, and in every round before the round's client was dropped.
unfoldable pub failed_until_cancelled : List Round → List ℕ → Bool
failed_until_cancelled [] dropped = false
failed_until_cancelled (r ∷ rs) dropped =
    r.cancelled || is_dropped r.attempt.client dropped && failed_until_cancelled rs dropped

-- The client is that of some round with ctx not done, and in every round before ctx is not done, and
-- the round's client was dropped.
unfoldable pub failed_until_client : ℕ → List Round → List ℕ → Bool
failed_until_client client [] dropped = false
failed_until_client client (r ∷ rs) dropped =
    not r.cancelled
    && (eqb r.attempt.client client
        || is_dropped r.attempt.client dropped && failed_until_client client rs dropped)

-- What an outcome of the reconnect loop says of the rounds and of the service.
unfoldable pub Explains : List Round → Backoff → Service → Reconnection → Type 0
Explains rs b s (retrying b') =
    (b'.attempt ≡ b.attempt + length rs) × (all_failed rs s.cancelled ≡ true)
Explains rs b s aborted = failed_until_cancelled rs s.cancelled ≡ true
Explains rs b s (reconnected client) =
    (failed_until_client client rs s.cancelled ≡ true)
    × (s.dx_client ≡ some client)
    × (s.dx_status.connected ≡ true)

Explains-more :
    (r : Round) (rs : List Round) (b : Backoff) (s : Service) (o : Reconnection)
    → r.cancelled ≡ false
    → is_dropped r.attempt.client s.cancelled ≡ true
    → Explains rs (next r.jitter b).0 s o
    → Explains (r ∷ rs) b s o
unfolding Explains next all_failed failed_until_cancelled failed_until_client
Explains-more r rs b s (retrying b') e d h = ground arith
Explains-more r rs b s aborted e d h = ground arith
Explains-more r rs b s (reconnected c) e d h = ground arith

pub cancelled-failed_until :
    (rs : List Round) (dropped : List ℕ)
    → failed_until_cancelled rs dropped ≡ true
    → has_cancelled rs ≡ true
unfolding failed_until_cancelled has_cancelled
cancelled-failed_until [] dropped h = ground arith
cancelled-failed_until (r ∷ rs) dropped h = ground (arith, cancelled-failed_until rs dropped)

module _ (answer : FeedController) (render : Error → String) where
  -- reconnectWithBackoff keeps every subscription and every counter, through any number of failed
  -- attempts, also when it is aborted.
  pub reconnect_loop_keeps_registered :
      (rs : List Round) (b : Backoff) (s : Service)
      → registered (reconnect_loop answer render rs b s).0 ≡ registered s
  unfolding reconnect_loop note_attempt registered
  reconnect_loop_keeps_registered [] b s = refl
  reconnect_loop_keeps_registered (r ∷ rs) b s =
      let b' = (next r.jitter b).0 in
      let s' = note_attempt b' s in
      elim (Bool-cases r.cancelled) [
        | inl e ↦ rw (e, reconnect_loop) refl
        | inr e ↦ elim (Option-cases (try_attempt answer render r.attempt s').1) [
          | inl f ↦
              rw (e, f, reconnect_loop)
                (reconnect_loop_keeps_registered rs b' (try_attempt answer render r.attempt s').0
                  ∙ try_attempt_keeps answer render r.attempt s')
          | inr (c, f) ↦ rw (e, f, reconnect_loop) (try_attempt_keeps answer render r.attempt s')
        ]
      ]

  -- The three ways on from a round.
  round_aborts :
      (r : Round) (rs : List Round) (b : Backoff) (s : Service)
      → r.cancelled ≡ true
      → reconnect_loop answer render (r ∷ rs) b s ≡ (note_attempt (next r.jitter b).0 s, aborted)
  unfolding reconnect_loop
  round_aborts r rs b s e = rw (e, reconnect_loop) refl

  round_fails :
      (r : Round) (rs : List Round) (b : Backoff) (s : Service)
      → r.cancelled ≡ false
      → (try_attempt answer render r.attempt (note_attempt (next r.jitter b).0 s)).1 ≡ none
      → reconnect_loop answer render (r ∷ rs) b s
        ≡ reconnect_loop answer render rs
            (next r.jitter b).0
            (try_attempt answer render r.attempt (note_attempt (next r.jitter b).0 s)).0
  unfolding reconnect_loop
  round_fails r rs b s e f = rw (e, f, reconnect_loop) refl

  round_connects :
      (r : Round) (rs : List Round) (b : Backoff) (s : Service) (c : ℕ)
      → r.cancelled ≡ false
      → (try_attempt answer render r.attempt (note_attempt (next r.jitter b).0 s)).1 ≡ some c
      → reconnect_loop answer render (r ∷ rs) b s ≡ (
        (try_attempt answer render r.attempt (note_attempt (next r.jitter b).0 s)).0,
        reconnected c,
      )
  unfolding reconnect_loop
  round_connects r rs b s c e f = rw (e, f, reconnect_loop) refl

  reconnect_loop_keeps_dropped :
      (rs : List Round) (b : Backoff) (s : Service) (c : ℕ)
      → is_dropped c s.cancelled ≡ true
      → is_dropped c (reconnect_loop answer render rs b s).0.cancelled ≡ true
  unfolding reconnect_loop note_attempt
  reconnect_loop_keeps_dropped [] b s c h = h
  reconnect_loop_keeps_dropped (r ∷ rs) b s c h =
      let b' = (next r.jitter b).0 in
      let s' = note_attempt b' s in
      let h' = try_attempt_keeps_dropped answer render r.attempt s' c h in
      elim (Bool-cases r.cancelled) [
        | inl e ↦ rw (e, reconnect_loop) h
        | inr e ↦ elim (Option-cases (try_attempt answer render r.attempt s').1) [
          | inl f ↦
              rw (e, f, reconnect_loop)
                (reconnect_loop_keeps_dropped rs b' (try_attempt answer render r.attempt s').0 c h')
          | inr (d, f) ↦ rw (e, f, reconnect_loop) h'
        ]
      ]

  -- The reconnect loop still waits only after as many counted attempts as there are rounds, with the
  -- client of each round dropped, which is what an attempt that failed leaves; it aborts only if ctx
  -- is done in some round, with the clients of the rounds before dropped; and otherwise it returns the
  -- feed of the client of a round in which ctx is not done, with the clients of the rounds before
  -- dropped, and the service holds that client as connected.
  pub reconnect_loop_outcome :
      (rs : List Round) (b : Backoff) (s : Service)
      → Explains rs b
          (reconnect_loop answer render rs b s).0
          (reconnect_loop answer render rs b s).1
  unfolding Explains all_failed failed_until_cancelled failed_until_client reconnect_loop
  reconnect_loop_outcome [] b s = ground arith
  reconnect_loop_outcome (r ∷ rs) b s =
      let b' = (next r.jitter b).0 in
      let s' = note_attempt b' s in
      elim (Bool-cases r.cancelled) [
        | inl e ↦ rw (round_aborts r rs b s e) (ground (arith, e))
        | inr e ↦ elim (Option-cases (try_attempt answer render r.attempt s').1) [
          | inl f ↦
              let s'' = (try_attempt answer render r.attempt s').0 in
              rw (round_fails r rs b s e f) (
                Explains-more r rs b (reconnect_loop answer render rs b' s'').0
                  (reconnect_loop answer render rs b' s'').1 e
                  (reconnect_loop_keeps_dropped rs b' s'' r.attempt.client
                    (try_attempt_drops answer render r.attempt s' f))
                  (reconnect_loop_outcome rs b' s''))
          | inr (c, f) ↦
              let (own, held, up) = try_attempt_connects answer render r.attempt s' c f in
              rw (round_connects r rs b s c e f) (ground (arith, e, own, eqb_refl c), held, up)
        ]
      ]

  -- Liveness: as soon as everything works in one round, whose client also takes the subscriptions
  -- again, and ctx is not done before, the loop returns the feed of that round's client or that of a
  -- round before, whatever failed before, a rebind included; the clients of the rounds before that one
  -- are dropped, which is what an attempt that failed leaves; and the service holds the client as
  -- connected.
  pub reconnect_loop_reaches :
      (before : List Round) (r : Round) (after : List Round) (b : Backoff) (s : Service)
      → has_cancelled (before ++ r ∷ []) ≡ false
      → IsWorking r.attempt
      → Accepts answer render r.attempt.client
      → (c : ℕ) × ((reconnect_loop answer render (before ++ r ∷ after) b s).1 ≡ reconnected c)
        × (failed_until_client c
              (before ++ r ∷ [])
              (reconnect_loop answer render (before ++ r ∷ after) b s).0.cancelled
            ≡ true)
        × ((reconnect_loop answer render (before ++ r ∷ after) b s).0.dx_client ≡ some c)
        × ((reconnect_loop answer render (before ++ r ∷ after) b s).0.dx_status.connected ≡ true)
  unfolding has_cancelled failed_until_client
  reconnect_loop_reaches [] r after b s uncut w accepts =
      let s' = note_attempt (next r.jitter b).0 s in
      let c = r.attempt.client in
      let going : r.cancelled ≡ false = ground (arith, uncut) in
      let f = working_attempt answer render r.attempt s' w accepts in
      let (own, held, up) = try_attempt_connects answer render r.attempt s' c f in
      rw (round_connects r after b s c going f)
        (c, refl, ground (arith, going, eqb_refl c), held, up)
  reconnect_loop_reaches (r₀ ∷ before) r after b s uncut w accepts =
      let b' = (next r₀.jitter b).0 in
      let s' = note_attempt b' s in
      let going : r₀.cancelled ≡ false = ground (arith, uncut) in
      let going' : has_cancelled (before ++ r ∷ []) ≡ false = ground (arith, uncut) in
      elim (Option-cases (try_attempt answer render r₀.attempt s').1) [
        | inl f ↦
            let s'' = (try_attempt answer render r₀.attempt s').0 in
            let (c, e, failed, held, up) =
              reconnect_loop_reaches before r after b' s'' going' w accepts in
            let dropped =
              reconnect_loop_keeps_dropped (before ++ r ∷ after) b' s'' r₀.attempt.client
                (try_attempt_drops answer render r₀.attempt s' f) in
            rw (round_fails r₀ (before ++ r ∷ after) b s going f)
              (c, e, ground (arith, going, failed, dropped), held, up)
        | inr (c, f) ↦
            let (own, held, up) = try_attempt_connects answer render r₀.attempt s' c f in
            rw (round_connects r₀ (before ++ r ∷ after) b s c going f)
              (c, refl, ground (arith, going, own, eqb_refl c), held, up)
      ]
