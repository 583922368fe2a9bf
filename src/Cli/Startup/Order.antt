-- ===== src/Cli/Startup/Order.antt =====
-- What holds when RunHTTPServer is called.
use mathlib.Core.Path.{subst}
use godxfeed.Common.{
  ℕ, String, ◌≡◌, refl, sym, ◌∙◌, Bool, true, false, not, Option, none, some, List, [], ◌∷◌, ◌++◌,
  All, arith, Option-cases, inl, inr, string_eq,
}
use godxfeed.Common.Dict.{has}
use godxfeed.Common.Outcome.{Error, Result, ok, err, Result-cases}
use godxfeed.Common.Text.{Unicode}
use godxfeed.Common.Floats.{Floats}
use godxfeed.Cli.{Context, Setup, setup_service, required_flags, resolve_stream_symbols}
use godxfeed.Cli.Registry.{Models}
use godxfeed.Cli.Startup.{
  Host, Serving, exits, served_with, build_sinks, logged_error, failure, start_publishing,
  serve_http,
}
use godxfeed.EnvFile.{require_flags}
use godxfeed.EnvFile.Given.{IsGiven, require_flags-IsGiven}
use godxfeed.NatsAuth.{NatsSettings, NatsCalls}
use godxfeed.Service.Connect.{start_ingress, quotes}
use godxfeed.Service.Connections.{registered, IsLive, IsNew}
use godxfeed.Service.Lifecycle.{start_ingress_registers}
use godxfeed.Sinks.{Factory, Sink, ensure_quotes_stream}
use godxfeed.Subscriptions.{SubKey, key_eq}
use godxfeed.Subscriptions.Wire.{mentions}

-- Each sink was built from the DSN at its place.
abbrev pub AreBuilt : Factory → List String → List Sink → Type 0
AreBuilt build [] [] = Unit
AreBuilt build (dsn ∷ dsns) (sink ∷ sinks) = (build dsn ≡ ok sink) × AreBuilt build dsns sinks
AreBuilt build _ _ = ⊥

build_sinks-AreBuilt :
    (build : Factory) (dsns : List String) (sinks : List Sink)
    → build_sinks build dsns ≡ ok sinks
    → AreBuilt build dsns sinks
unfolding build_sinks
build_sinks-AreBuilt build [] [] h = tt
build_sinks-AreBuilt build [] (sink ∷ sinks) h = absurd (ground (arith, h))
build_sinks-AreBuilt build (dsn ∷ dsns) sinks h = elim (Result-cases (build dsn)) [
  | inr (e, x) ↦ absurd (ground (arith, h, x))
  | inl (s, x) ↦ elim (Result-cases (build_sinks build dsns)) [
    | inr (e, y) ↦ absurd (ground (arith, h, x, y))
    | inl (ss, y) ↦
        let same : sinks ≡ s ∷ ss = ground (arith, h, x, y) in
        rw same (x, build_sinks-AreBuilt build dsns ss y)
  ]
]

setup_service-IsFresh :
    (nats : NatsSettings → NatsCalls) (minimal : Bool) (ctx : Context) (tts : Setup)
    → setup_service nats minimal ctx ≡ ok tts
    → (tts.service.subs ≡ none)
      × (tts.service.dx_client ≡ none)
      × (tts.service.has_nats ≡ not minimal)
unfolding setup_service
setup_service-IsFresh nats minimal ctx tts h = ground (arith, h)

logged_nothing : (o : Option Error) (es : List Error) → es ++ logged_error o ≡ [] → o ≡ none
logged_nothing none es h = refl
logged_nothing (some e) [] h = cc
logged_nothing (some e) (x ∷ es) h = cc

append_nothing : (xs ys : List Error) → xs ++ ys ≡ [] → ys ≡ []
append_nothing [] ys h = h
append_nothing (x ∷ xs) ys h = cc

no_exits :
    (run : Sink → Option Error) (sinks : List Sink) (more : List Error)
    → exits run sinks ++ more ≡ []
    → All (λ sink. run sink ≡ none) sinks
no_exits run [] more h = tt
no_exits run (sink ∷ sinks) more h = elim (Option-cases (run sink)) [
  | inl fine ↦ (fine, no_exits run sinks more (ground (arith, fine, h)))
  | inr (e, failed) ↦ absurd (ground (arith, failed, h))
]

succeeded : (r : Result ℕ) → failure r ≡ none → (feed : ℕ) × (r ≡ ok feed)
succeeded (ok feed) h = (feed, refl)
succeeded (err e) h = cc

module _ {f : Floats} (models : Models f) (host : Host) ⦃u : Unicode⦄ where
  -- The parts of a start with NATS.
  served_by :
      (ctx : Context) (v : Serving f)
      → ctx.bool "minimal-setup" ≡ false
      → serve_http models host ctx ≡ ok v
      → (tts : Setup) × (syms : List String) × (sinks : List Sink) × (require_flags ctx.string
            (required_flags ctx)
          ≡ none)
        × (setup_service host.nats false ctx ≡ ok tts)
        × (resolve_stream_symbols (host.rest_of tts.provider) f ctx ≡ ok syms)
        × (build_sinks host.build_sink (ctx.string_slice "analytic-sink") ≡ ok sinks)
        × (v.service ≡ (start_ingress host.answer syms host.attempt tts.service).0)
        × (v.sinks ≡ sinks)
        × (v.logged
            ≡ logged_error (ensure_quotes_stream host.jetstream host.update_stream)
              ++ (exits host.run_sink sinks
                  ++ logged_error
                      (failure (start_ingress host.answer syms host.attempt tts.service).1)))
  unfolding serve_http served_with start_publishing
  served_by ctx v full h = elim (Option-cases (require_flags ctx.string (required_flags ctx))) [
    | inr (e, a) ↦ absurd (ground (arith, a, h))
    | inl a ↦ elim (Result-cases (setup_service host.nats false ctx)) [
      | inr (e, b) ↦ absurd (ground (arith, a, b, full, h))
      | inl (tts, b) ↦
          elim (Result-cases (resolve_stream_symbols (host.rest_of tts.provider) f ctx)) [
            | inr (e, c) ↦ absurd (ground (arith, a, b, c, full, h))
            | inl (syms, c) ↦
                elim (Result-cases
                  (build_sinks host.build_sink (ctx.string_slice "analytic-sink"))) [
                    | inr (e, d) ↦ absurd (ground (arith, a, b, c, d, full, h))
                    | inl (sinks, d) ↦ (
                      tts,
                      syms,
                      sinks,
                      a,
                      b,
                      c,
                      d,
                      ground (arith, a, b, c, d, full, h),
                      ground (arith, a, b, c, d, full, h),
                      ground (arith, a, b, c, d, full, h),
                    )
                  ]
          ]
    ]
  ]

  -- If the server is started with NATS and nothing was only logged: every required flag is given; the
  -- service is live on the connection that was dialled; every symbol that the flags resolve to is
  -- registered for quotes; and for each DSN, in order, a sink was built and started, whose Start has
  -- returned no error.
  pub serve_http_publishes :
      (ctx : Context) (v : Serving f)
      → ctx.bool "minimal-setup" ≡ false
      → serve_http models host ctx ≡ ok v
      → v.logged ≡ []
      → All (IsGiven ctx.string) (required_flags ctx)
        × AreBuilt host.build_sink (ctx.string_slice "analytic-sink") v.sinks
        × All (λ sink. host.run_sink sink ≡ none) v.sinks
        × IsLive host.attempt.client v.service
        × (tts : Setup) × (syms : List String) × (setup_service host.nats false ctx ≡ ok tts)
        × (resolve_stream_symbols (host.rest_of tts.provider) f ctx ≡ ok syms)
        × ((k : SubKey) → mentions k (quotes syms) ≡ true → has k (registered v.service) ≡ true)
  serve_http_publishes ctx v full h clean =
      let (tts, syms, sinks, flags, set, resolved, built, service, same, logged) =
        served_by ctx v full h in
      let (unmanaged, idle, nats) = setup_service-IsFresh host.nats false ctx tts set in
      let new : IsNew host.attempt.client tts.service = record {
        unused = λ m e. absurd (ground (arith, e, unmanaged));
      } in
      let (feed, started) =
        succeeded (start_ingress host.answer syms host.attempt tts.service).1
          (logged_nothing _ _ (append_nothing _ _ (sym logged ∙ clean))) in
      let (live, there) =
        start_ingress_registers host.answer syms host.attempt tts.service feed new started in
      (
        require_flags-IsGiven ctx.string (required_flags ctx) flags,
        rw same
            (build_sinks-AreBuilt host.build_sink (ctx.string_slice "analytic-sink") sinks built),
        rw same (no_exits host.run_sink sinks _ (append_nothing _ _ (sym logged ∙ clean))),
        subst (IsLive host.attempt.client) (sym service) live,
        tts,
        syms,
        set,
        resolved,
        subst (λ s. (k : SubKey) → mentions k (quotes syms) ≡ true → has k (registered s) ≡ true)
            (sym service) there,
      )
