-- ===== src/Service/Attempts.antt =====
-- One attempt of the reconnect loop: what it keeps and leaves, and when it succeeds.
use Prim.Native.String
use godxfeed.Common.{
  eqb, eqb_refl, ℕ, String, ◌≡◌, refl, Bool, true, false, none, some, List, [], ◌∷◌, arith,
  if◌then◌else◌, ◌||◌, ◌==◌, string_eq, Option-cases, Bool-cases, inl, inr,
}
use godxfeed.Common.Outcome.{Error, ok, Result-cases}
use godxfeed.Subscriptions.{FeedController, Frame, FeedSub, keys, rebind, update_subscription}
use godxfeed.Service.{Service}
use godxfeed.Service.Connect.{
  Attempt, dial_and_subscribe, cancel_previous, give_up, connected_to, attach_manager, connect,
  dial_target, TokenData,
}
use godxfeed.Service.Reconnect.{try_attempt}
use godxfeed.Service.Connections.{registered, dial_and_subscribe_keeps_registered}

-- Whether the context of a client was cancelled, which is what is left of an attempt that failed.
abbrev pub is_dropped : ℕ → List ℕ → Bool
is_dropped client [] = false
is_dropped client (c ∷ cs) = eqb c client || is_dropped client cs

-- Everything that one attempt asks for is granted.
pub record IsWorking (a : Attempt) : Type 0 where
  pub token : TokenData
  pub granted : a.streamer_token ≡ ok token
  pub dials : (url : String) → a.dial url ≡ none
  pub authenticates : (t : String) → a.authenticate t ≡ none
  pub opens : a.open_feed ≡ none

working_connects :
    (a : Attempt) (s : Service) → IsWorking a → (url : String) × (connect s a ≡ ok url)
unfolding connect dial_target
working_connects a s w = elim (Bool-cases (s.dx_force_url == "")) [
  | inl e ↦ (
    if w.token.dx_link_url == "" then String.◌++◌ "wss://" s.dx_endpoint else w.token.dx_link_url,
    simp (e, w.granted, w.dials, w.authenticates, w.opens) refl,
  )
  | inr e ↦ (s.dx_force_url, simp (e, w.granted, w.dials, w.authenticates, w.opens) refl)
]

module _ (answer : FeedController) (render : Error → String) where
  -- The manager is accepted on the client.
  abbrev pub Accepts : ℕ → Type 0
  Accepts client = (h : List Frame) (add : List FeedSub) → answer h client add [] ≡ none

  pub try_attempt_keeps :
      (a : Attempt) (s : Service) → registered (try_attempt answer render a s).0 ≡ registered s
  unfolding try_attempt registered
  try_attempt_keeps a s = elim (Result-cases (dial_and_subscribe answer a s).1) [
    | inl (c, e) ↦ rw (e, try_attempt) (dial_and_subscribe_keeps_registered answer a s)
    | inr (x, e) ↦ rw (e, try_attempt) (dial_and_subscribe_keeps_registered answer a s)
  ]

  -- An attempt that succeeds returns the feed of its own client, which the service then holds.
  pub try_attempt_connects :
      (a : Attempt) (s : Service) (c : ℕ)
      → (try_attempt answer render a s).1 ≡ some c
      → (c ≡ a.client)
        × ((try_attempt answer render a s).0.dx_client ≡ some c)
        × ((try_attempt answer render a s).0.dx_status.connected ≡ true)
  unfolding try_attempt dial_and_subscribe give_up connected_to attach_manager cancel_previous
  try_attempt_connects a s c h = ground arith

  pub try_attempt_drops :
      (a : Attempt) (s : Service)
      → (try_attempt answer render a s).1 ≡ none
      → is_dropped a.client (try_attempt answer render a s).0.cancelled ≡ true
  unfolding try_attempt dial_and_subscribe give_up connected_to attach_manager cancel_previous
  try_attempt_drops a s h = ground (arith, eqb_refl a.client)

  -- A context stays cancelled.
  pub try_attempt_keeps_dropped :
      (a : Attempt) (s : Service) (c : ℕ)
      → is_dropped c s.cancelled ≡ true
      → is_dropped c (try_attempt answer render a s).0.cancelled ≡ true
  unfolding try_attempt dial_and_subscribe give_up connected_to attach_manager cancel_previous
  try_attempt_keeps_dropped a s c h = ground arith

  accepting_attaches :
      (client : ℕ) (s : Service) → Accepts client → (attach_manager answer client s).1 ≡ none
  unfolding attach_manager rebind update_subscription
  accepting_attaches client s accepts = elim (Option-cases s.subs) [
    | inl e ↦ rw (e, attach_manager) refl
    | inr (m, e) ↦ rw (e, attach_manager) (ground (arith, accepts m.sent (keys m.state)))
  ]

  pub working_attempt :
      (a : Attempt) (s : Service)
      → IsWorking a
      → Accepts a.client
      → (try_attempt answer render a s).1 ≡ some a.client
  unfolding try_attempt dial_and_subscribe give_up connected_to
  working_attempt a s w accepts =
      let s₀ = cancel_previous s in
      let (url, e) = working_connects a s₀ w in
      let f = accepting_attaches a.client s₀ accepts in
      rw (e, f, dial_and_subscribe, try_attempt) refl
