-- ===== src/Service/Lifecycle.antt =====
-- StartIngress, and when its goroutine ends.
use mathlib.Core.Path.{subst}
use godxfeed.Common.{
  some, All, ℕ, String, ◌≡◌, ◌≢◌, refl, sym, ap, ◌∙◌, Bool, true, false, ◌||◌, ◌⊎◌, none, List, [],
  ◌∷◌, arith, Option-cases, Bool-cases, inl, inr,
}
use godxfeed.Common.Dict.{has}
use godxfeed.Common.Outcome.{Error, Result, ok, err, fail}
use godxfeed.Common.Text.{Unicode}
use godxfeed.Subscriptions.{FeedController, SubKey, key_eq, bulk_add}
use godxfeed.Subscriptions.Wire.{mentions, bulk_add-IsInLockstep}
use godxfeed.Service.{Service}
use godxfeed.Service.Connect.{Attempt, dial_and_subscribe, start_ingress, initial_subscribe, quotes}
use godxfeed.Service.Reconnect.{
  Reconnection, retrying, aborted, reconnected, reconnect_with_backoff, Session, World, running,
  ingress_with_reconnect, publish_session, tear_down,
}
use godxfeed.Service.Connections.{registered, IsLive, IsNew, dial_and_subscribe_connects}
use godxfeed.Service.Survival.{
  cancelled-failed_until, has_cancelled, Explains, reconnect_loop_outcome,
}
use godxfeed.Service.Starts.{
  bulk_add_binds, bulk_add_registers, dials, started_by, holds_client, initial_subscribe_holds,
  refuses,
}
use godxfeed.Ingress.{FeedDecoder, Publication}
use godxfeed.Backoff.{Backoff, new_backoff}

module _ (answer : FeedController) ⦃u : Unicode⦄ where
  initial_subscribe_registers :
      (symbols : List String) (c held feed : ℕ) (s : Service)
      → IsLive c s
      → (initial_subscribe answer symbols held s).1 ≡ ok feed
      → IsLive c (initial_subscribe answer symbols held s).0
        × ((k : SubKey)
            → mentions k (quotes symbols) ≡ true
            → has k (registered (initial_subscribe answer symbols held s).0) ≡ true)
  unfolding initial_subscribe registered
  initial_subscribe_registers [] c held feed s live done = (
    rw (live.kept, initial_subscribe)
        (record {
          manager = live.manager;
          kept = live.kept;
          bound = live.bound;
          lockstep = live.lockstep;
        }),
    λ k h. absurd (ground (arith, h)),
  )
  initial_subscribe_registers (sym ∷ syms) c held feed s live done =
      let m = live.manager in
      elim (Option-cases (bulk_add answer (quotes (sym ∷ syms)) m).1) [
        | inl e ↦
            rw (live.kept, e, initial_subscribe)
              (
                record {
                  manager = (bulk_add answer (quotes (sym ∷ syms)) m).0;
                  kept = refl;
                  bound = bulk_add_binds answer (quotes (sym ∷ syms)) m ∙ live.bound;
                  lockstep = bulk_add-IsInLockstep answer (quotes (sym ∷ syms)) live.lockstep;
                },
                λ k h. ground (arith, bulk_add_registers answer (quotes (sym ∷ syms)) m k e, h),
              )
        | inr (x, e) ↦ absurd (ground (arith, live.kept, e, done))
      ]

  -- When StartIngress succeeds on a client that got no call yet, the service is live on that client
  -- and every initial symbol is registered for quotes.
  pub start_ingress_registers :
      (symbols : List String) (a : Attempt) (s : Service) (feed : ℕ)
      → IsNew a.client s
      → (start_ingress answer symbols a s).1 ≡ ok feed
      → IsLive a.client (start_ingress answer symbols a s).0
        × ((k : SubKey)
            → mentions k (quotes symbols) ≡ true
            → has k (registered (start_ingress answer symbols a s).0) ≡ true)
  unfolding start_ingress registered
  start_ingress_registers symbols a s feed new done =
      let (c, dialled, e) = started_by answer symbols a s feed done in
      let (same, held, up, live) = dial_and_subscribe_connects answer a s c new dialled in
      rw (e) (
        initial_subscribe_registers symbols a.client c feed (dial_and_subscribe answer a s).0 live
          (ap (λ x. x.1) (sym e) ∙ done))

  -- Calls of StartIngress, one after the other: what each returned, and the service after all.
  unfoldable pub starts : List (List String × Attempt) → Service → Service × List (Result ℕ)
  starts [] s = (s, [])
  starts ((symbols, a) ∷ calls) s =
      let (s', r) = start_ingress answer symbols a s in
      let (s'', rs) = starts calls s' in (s'', r ∷ rs)

  starts_refused :
      (calls : List (List String × Attempt)) (s : Service) (client : ℕ)
      → s.has_nats ≡ true
      → s.dx_client ≡ some client
      → ((starts calls s).0 ≡ s)
        × All (λ r. r ≡ err (fail "ingress: already started" [])) (starts calls s).1
  unfolding starts
  starts_refused [] s client nats held = (refl, tt)
  starts_refused ((symbols, a) ∷ calls) s client nats held =
      let e = refuses answer symbols a s client nats held in
      let (same, all) = starts_refused calls s client nats held in rw e (same, (refl, all))

  -- After a start that dialled, and whose initial subscribe failed, every call of StartIngress in any
  -- number of further ones returns that it is already started, and none changes the service.
  pub start_ingress_stuck :
      (symbols : List String) (a : Attempt) (later : List (List String × Attempt)) (s : Service)
      (feed : ℕ) (e : Error)
      → s.has_nats ≡ true
      → s.dx_client ≡ none
      → (dial_and_subscribe answer a s).1 ≡ ok feed
      → (start_ingress answer symbols a s).1 ≡ err e
      → ((starts later (start_ingress answer symbols a s).0).0
          ≡ (start_ingress answer symbols a s).0)
        × All
            (λ r. r ≡ err (fail "ingress: already started" []))
            (starts later (start_ingress answer symbols a s).0).1
  start_ingress_stuck symbols a later s feed e nats idle dialled failed =
      let (held, nats') = holds_client answer a s feed dialled in
      let (held', nats'') =
        initial_subscribe_holds answer symbols feed (dial_and_subscribe answer a s).0 in
      let e' = dials answer symbols a s feed nats (ground (arith, idle)) dialled in
      starts_refused later (start_ingress answer symbols a s).0 a.client
        (ap (λ x. x.0.has_nats) e' ∙ nats'' ∙ nats' ∙ nats)
        (ap (λ x. x.0.dx_client) e' ∙ held' ∙ held)

Reconnection-cases :
    (o : Reconnection)
    → ((b : Backoff) × (o ≡ retrying b)) ⊎ (o ≡ aborted) ⊎ ((c : ℕ) × (o ≡ reconnected c))
Reconnection-cases (retrying b) = inl (b, refl)
Reconnection-cases aborted = inr (inl refl)
Reconnection-cases (reconnected c) = inr (inr (c, refl))

-- Whether ctx is done in the session or in a wait of the backoff after it.
unfoldable pub was_cancelled : List Session → Bool
unfolding has_cancelled
was_cancelled [] = false
was_cancelled (x ∷ xs) = x.cancelled || has_cancelled x.rounds || was_cancelled xs

module _ (answer : FeedController) (render : Error → String)
    (publishes : List Publication → String → Bool) (tick : ℕ → ℕ) ⦃u : Unicode⦄
    (decoder : FeedDecoder) where
  no_session :
      (w : World) → (ingress_with_reconnect answer render publishes tick decoder [] w).1 ≡ running
  unfolding ingress_with_reconnect
  no_session w = refl

  session_waits :
      (x : Session) (xs : List Session) (w : World) (b : Backoff)
      → x.cancelled ≡ false
      → (reconnect_with_backoff answer render x.rounds
          (tear_down (publish_session publishes tick decoder x.messages w).service)).1
        ≡ retrying b
      → (ingress_with_reconnect answer render publishes tick decoder (x ∷ xs) w).1 ≡ running
  unfolding ingress_with_reconnect
  session_waits x xs w b e f = simp (e, f, ingress_with_reconnect) refl

  session_follows :
      (x : Session) (xs : List Session) (w : World) (c : ℕ)
      → x.cancelled ≡ false
      → (reconnect_with_backoff answer render x.rounds
          (tear_down (publish_session publishes tick decoder x.messages w).service)).1
        ≡ reconnected c
      → ingress_with_reconnect answer render publishes tick decoder (x ∷ xs) w
        ≡ ingress_with_reconnect answer render publishes tick decoder xs
            (record (publish_session publishes tick decoder x.messages w) {
              service =
                  (reconnect_with_backoff answer render x.rounds
                    (tear_down (publish_session publishes tick decoder x.messages w).service)).0;
            })
  unfolding ingress_with_reconnect
  session_follows x xs w c e f = simp (e, f, ingress_with_reconnect) refl

  -- The goroutine of StartIngress ends only when ctx is done: a lost connection, a failed attempt or a
  -- message that does not parse never ends it.
  pub ingress_ends_only_when_cancelled :
      (xs : List Session) (w : World)
      → (ingress_with_reconnect answer render publishes tick decoder xs w).1 ≢ running
      → was_cancelled xs ≡ true
  unfolding was_cancelled reconnect_with_backoff Explains
  ingress_ends_only_when_cancelled [] w ended = absurd (ended (no_session w))
  ingress_ends_only_when_cancelled (x ∷ xs) w ended =
      let s' = tear_down (publish_session publishes tick decoder x.messages w).service in
      let h = reconnect_loop_outcome answer render x.rounds new_backoff s' in
      elim (Bool-cases x.cancelled) [
        | inl e ↦ ground (arith, e)
        | inr e ↦ elim (Reconnection-cases (reconnect_with_backoff answer render x.rounds s').1) [
          | inl (b, f) ↦ absurd (ended (session_waits x xs w b e f))
          | inr (inl f) ↦
              let h' =
                cancelled-failed_until x.rounds
                  (reconnect_with_backoff answer render x.rounds s').0.cancelled
                  (subst
                    (Explains x.rounds new_backoff
                      (reconnect_with_backoff answer render x.rounds s').0)
                    f h) in
              ground (arith, h')
          | inr (inr (c, f)) ↦
              let ih =
                ingress_ends_only_when_cancelled xs _
                  (λ q. ended (ap (λ z. z.1) (session_follows x xs w c e f) ∙ q)) in
              ground (arith, ih)
        ]
      ]
