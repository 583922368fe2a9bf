-- ===== src/Service/Starts.antt =====
-- The steps of StartIngress: the bulk add of its initial symbols, and the branches before it.
use godxfeed.Common.{
  ℕ, String, ◌≡◌, refl, true, false, ◌||◌, none, some, List, [], ◌∷◌, arith, is_some, is_empty,
  Bool-cases, inl, inr,
}
use godxfeed.Common.Dict.{has}
use godxfeed.Common.Outcome.{ok, err, fail, Result-cases}
use godxfeed.Common.Text.{Unicode}
use godxfeed.Subscriptions.{
  FeedController, FeedSub, SubKey, key_eq, Manager, bulk_add, update_subscription, unregistered,
}
use godxfeed.Subscriptions.Wire.{mentions, mentions-unregistered, has-register_all}
use godxfeed.Service.{Service}
use godxfeed.Service.Connect.{
  Attempt, dial_and_subscribe, start_ingress, initial_subscribe, give_up, connected_to,
  attach_manager, cancel_previous,
}

module _ (answer : FeedController) ⦃u : Unicode⦄ where
  mentions-is_empty : (ps : List FeedSub) (k : SubKey) → is_empty ps ≡ true → mentions k ps ≡ false
  mentions-is_empty [] k h = refl
  mentions-is_empty (p ∷ ps) k h = cc

  pub bulk_add_binds : (ps : List FeedSub) (m : Manager) → (bulk_add answer ps m).0.fc ≡ m.fc
  unfolding bulk_add update_subscription
  bulk_add_binds ps m = ground arith

  pub bulk_add_registers :
      (ps : List FeedSub) (m : Manager) (k : SubKey)
      → (bulk_add answer ps m).1 ≡ none
      → has k (bulk_add answer ps m).0.state ≡ (has k m.state || mentions k ps)
  unfolding bulk_add update_subscription
  bulk_add_registers ps m k done = ground (
    arith,
    has-register_all (unregistered m.state ps) m.state k,
    mentions-unregistered m.state ps k,
    mentions-is_empty (unregistered m.state ps) k,
  )

  pub dials :
      (symbols : List String) (a : Attempt) (s : Service) (c : ℕ)
      → s.has_nats ≡ true
      → is_some s.dx_client ≡ false
      → (dial_and_subscribe answer a s).1 ≡ ok c
      → start_ingress answer symbols a s
        ≡ initial_subscribe answer symbols c (dial_and_subscribe answer a s).0
  unfolding start_ingress
  dials symbols a s c nats idle e = simp (nats, idle, e, start_ingress) refl

  -- The attempt behind a start that succeeds.
  pub started_by :
      (symbols : List String) (a : Attempt) (s : Service) (feed : ℕ)
      → (start_ingress answer symbols a s).1 ≡ ok feed
      → (c : ℕ) × ((dial_and_subscribe answer a s).1 ≡ ok c)
        × (start_ingress answer symbols a s
            ≡ initial_subscribe answer symbols c (dial_and_subscribe answer a s).0)
  unfolding start_ingress
  started_by symbols a s feed done = elim (Bool-cases s.has_nats) [
    | inr cut ↦ absurd (ground (arith, cut, done))
    | inl nats ↦ elim (Bool-cases (is_some s.dx_client)) [
      | inl busy ↦ absurd (ground (arith, nats, busy, done))
      | inr idle ↦ elim (Result-cases (dial_and_subscribe answer a s).1) [
        | inl (c, e) ↦ (c, e, dials symbols a s c nats idle e)
        | inr (x, e) ↦ absurd (ground (arith, nats, idle, e, done))
      ]
    ]
  ]

  pub holds_client :
      (a : Attempt) (s : Service) (feed : ℕ)
      → (dial_and_subscribe answer a s).1 ≡ ok feed
      → ((dial_and_subscribe answer a s).0.dx_client ≡ some a.client)
        × ((dial_and_subscribe answer a s).0.has_nats ≡ s.has_nats)
  unfolding dial_and_subscribe give_up connected_to attach_manager cancel_previous
  holds_client a s feed done = ground arith

  pub initial_subscribe_holds :
      (symbols : List String) (feed : ℕ) (s : Service)
      → ((initial_subscribe answer symbols feed s).0.dx_client ≡ s.dx_client)
        × ((initial_subscribe answer symbols feed s).0.has_nats ≡ s.has_nats)
  unfolding initial_subscribe
  initial_subscribe_holds symbols feed s = ground arith

  pub refuses :
      (symbols : List String) (a : Attempt) (s : Service) (client : ℕ)
      → s.has_nats ≡ true
      → s.dx_client ≡ some client
      → start_ingress answer symbols a s ≡ (s, err (fail "ingress: already started" []))
  unfolding start_ingress
  refuses symbols a s client nats held = simp (nats, held, start_ingress) refl
