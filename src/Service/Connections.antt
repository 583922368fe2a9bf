-- ===== src/Service/Connections.antt =====
-- What one call of dialAndSubscribe or StartIngress does to the service.
use godxfeed.Common.{
  ℕ, ◌≡◌, refl, sym, ◌∙◌, true, false, none, some, [], ◌∷◌, arith, Option-cases, inl, inr,
}
use godxfeed.Common.Outcome.{Error, ok, err, Result-cases}
use godxfeed.Subscriptions.{
  Manager, FeedController, new_subscription_manager, rebind, update_subscription, SubKey, SubState,
}
use godxfeed.Common.Dict.{Dict, has}
use godxfeed.Subscriptions.Wire.{on_wire, IsInLockstep, rebind-IsInLockstep}
use godxfeed.Service.{Service}
use godxfeed.Service.Connect.{
  Attempt, connect, cancel_previous, give_up, connected_to, attach_manager, dial_and_subscribe,
}

-- The subscriptions with their counters; none before the first connection.
unfoldable pub registered : Service → Dict SubKey SubState
registered s = elim s.subs [ none ↦ [] | some m ↦ m.state ]

-- The manager is on the wire of the client: what is registered is subscribed there.
pub record IsLive (client : ℕ) (s : Service) : Type 0 where
  pub manager : Manager
  pub kept : s.subs ≡ some manager
  pub bound : manager.fc ≡ client
  pub lockstep : IsInLockstep manager

-- No call went to the client yet.
pub record IsNew (client : ℕ) (s : Service) : Type 0 where
  pub unused : (m : Manager) → s.subs ≡ some m → (k : SubKey) → on_wire m.sent client k ≡ false

module _ (answer : FeedController) where
  rebind_keeps_state : (fc : ℕ) (m : Manager) → (rebind answer fc m).0.state ≡ m.state
  unfolding rebind update_subscription
  rebind_keeps_state fc m = ground arith

  cancel_keeps_registered : (s : Service) → registered (cancel_previous s) ≡ registered s
  unfolding registered cancel_previous
  cancel_keeps_registered s = ground arith

  cancel_keeps_subs : (s : Service) → (cancel_previous s).subs ≡ s.subs
  unfolding cancel_previous
  cancel_keeps_subs s = ground arith

  attach_keeps_registered :
      (client : ℕ) (s : Service) → registered (attach_manager answer client s).0 ≡ registered s
  unfolding registered attach_manager new_subscription_manager
  attach_keeps_registered client s = elim (Option-cases s.subs) [
    | inl e ↦ rw (e, registered, attach_manager) refl
    | inr (m, e) ↦ rw (e, registered, attach_manager) (rebind_keeps_state client m)
  ]

  -- dialAndSubscribe never changes what is registered nor a counter, whether it succeeds or fails.
  pub dial_and_subscribe_keeps_registered :
      (a : Attempt) (s : Service) → registered (dial_and_subscribe answer a s).0 ≡ registered s
  unfolding dial_and_subscribe registered give_up connected_to
  dial_and_subscribe_keeps_registered a s =
      let s₀ = cancel_previous s in
      elim (Result-cases (connect s₀ a)) [
        | inr (e, f) ↦ rw (f, dial_and_subscribe) (cancel_keeps_registered s)
        | inl (url, f) ↦ elim (Option-cases (attach_manager answer a.client s₀).1) [
          | inl g ↦
              rw (f, g, dial_and_subscribe)
                (attach_keeps_registered a.client s₀ ∙ cancel_keeps_registered s)
          | inr (x, g) ↦
              rw (f, g, dial_and_subscribe)
                (attach_keeps_registered a.client s₀ ∙ cancel_keeps_registered s)
        ]
      ]

  rebind_binds : (fc : ℕ) (m : Manager) → (rebind answer fc m).0.fc ≡ fc
  unfolding rebind update_subscription
  rebind_binds fc m = ground arith

  attach-IsLive :
      (client : ℕ) (s : Service)
      → IsNew client s
      → (attach_manager answer client s).1 ≡ none
      → IsLive client (attach_manager answer client s).0
  unfolding attach_manager new_subscription_manager has
  attach-IsLive client s new done = elim (Option-cases s.subs) [
    | inl e ↦
        rw (e, attach_manager)
          (record {
            manager = new_subscription_manager client;
            kept = refl;
            bound = refl;
            lockstep = record { at_key = λ k. refl };
          })
    | inr (m, e) ↦
        let done' : (rebind answer client m).1 ≡ none = rw (e) at done in
        rw (e, attach_manager)
          (record {
            manager = (rebind answer client m).0;
            kept = refl;
            bound = rebind_binds client m;
            lockstep = rebind-IsInLockstep answer client m (new.unused m e) done';
          })
  ]

  -- When dialAndSubscribe succeeds on a client that got no call yet, the service holds that client,
  -- reports it as connected, and what is registered is what was subscribed on its wire.
  pub dial_and_subscribe_connects :
      (a : Attempt) (s : Service) (feed : ℕ)
      → IsNew a.client s
      → (dial_and_subscribe answer a s).1 ≡ ok feed
      → (feed ≡ a.client)
        × ((dial_and_subscribe answer a s).0.dx_client ≡ some a.client)
        × ((dial_and_subscribe answer a s).0.dx_status.connected ≡ true)
        × IsLive a.client (dial_and_subscribe answer a s).0
  unfolding dial_and_subscribe give_up connected_to
  dial_and_subscribe_connects a s feed new done =
      let s₀ = cancel_previous s in
      let new₀ : IsNew a.client s₀ = record {
        unused = λ m e. new.unused m (sym (cancel_keeps_subs s) ∙ e);
      } in
      elim (Result-cases (connect s₀ a)) [
        | inr (e, f) ↦ absurd (ground (arith, f, done))
        | inl (url, f) ↦ elim (Option-cases (attach_manager answer a.client s₀).1) [
          | inr (x, g) ↦ absurd (ground (arith, f, g, done))
          | inl g ↦
              let live = attach-IsLive a.client s₀ new₀ g in
              rw (f, g, dial_and_subscribe)
                (
                  ground (arith, f, g, done),
                  refl,
                  refl,
                  record {
                    manager = live.manager;
                    kept = live.kept;
                    bound = live.bound;
                    lockstep = live.lockstep;
                  },
                )
        ]
      ]

  -- When it fails, the context of the new client is cancelled, and the service keeps the client and
  -- the status that it had.
  dial_and_subscribe_fails :
      (a : Attempt) (s : Service) (e : Error)
      → (dial_and_subscribe answer a s).1 ≡ err e
      → ((dial_and_subscribe answer a s).0.cancelled ≡ a.client ∷ (cancel_previous s).cancelled)
        × ((dial_and_subscribe answer a s).0.dx_client ≡ s.dx_client)
        × ((dial_and_subscribe answer a s).0.dx_status ≡ s.dx_status)
  unfolding dial_and_subscribe give_up connected_to attach_manager cancel_previous
  dial_and_subscribe_fails a s e failed = ground arith
