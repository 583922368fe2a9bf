-- ===== src/Cli/Startup.antt =====
-- serve_http of cmd/godxfeed/services.go, from the flags to the call of RunHTTPServer.
pub mod Order
use godxfeed.Common.{
  ℕ, String, Bool, true, false, Option, none, some, List, [], ◌∷◌, ◌++◌, if◌then◌else◌,
}
use godxfeed.Common.Outcome.{Error, Result, ok, err, wrap, str, ◌>>=◌, context}
use godxfeed.Common.Text.{Unicode}
use godxfeed.Common.Floats.{Floats}
use godxfeed.Cli.{Context, Setup, setup_service, required_flags, resolve_stream_symbols}
use godxfeed.Cli.Registry.{Models, build_llm_registry}
use godxfeed.EnvFile.{require_flags}
use godxfeed.Http.Natural.{ProviderRegistry}
use godxfeed.NatsAuth.{NatsSettings, NatsCalls}
use godxfeed.Oauth.{TokenProvider}
use godxfeed.Service.{Service}
use godxfeed.Service.Connect.{Attempt, start_ingress}
use godxfeed.Service.Symbols.{Rest}
use godxfeed.Sinks.{Factory, Sink, ensure_quotes_stream}
use godxfeed.Subscriptions.{FeedController}

-- What the program meets when it starts: NATS at the settings of the flags, the REST side of a service,
-- JetStream, analytics.Build at the registry, what Start of a sink returns in its goroutine (none also
-- while it runs), and the connection that StartIngress tries.
pub record Host : Type 0 where
  pub nats : NatsSettings → NatsCalls
  pub rest_of : Option TokenProvider → Rest
  pub jetstream : Option Error
  pub update_stream : Option Error
  pub build_sink : Factory
  pub run_sink : Sink → Option Error
  pub answer : FeedController
  pub attempt : Attempt

-- What RunHTTPServer is called with, the level of the logger, the sinks that were started, and the
-- errors that were only logged: of the stream, of the sinks, and of the ingress.
pub record Serving (f : Floats) : Type 0 where
  pub log_level : ℕ
  pub addr : String
  pub tw_endpoint : String
  pub dx_endpoint : String
  pub nats_browser_url : String
  pub dev_mode : Bool
  pub service : Service
  pub registry : ProviderRegistry f
  pub sinks : List Sink
  pub logged : List Error

-- The loop over the DSNs, up to the first that cannot be built.
unfoldable pub build_sinks : Factory → List String → Result (List Sink)
build_sinks build [] = ok []
build_sinks build (dsn ∷ dsns) =
    let rest = build_sinks build dsns in
    context (wrap "analytic-sink %q: %w" (str dsn ∷ [])) (build dsn) >>= λ sink.
    rest >>= λ sinks. ok (sink ∷ sinks)

abbrev logged_error : Option Error → List Error
logged_error none = []
logged_error (some e) = e ∷ []

-- The errors that the sinks exit with.
abbrev pub exits : (Sink → Option Error) → List Sink → List Error
exits run [] = []
exits run (sink ∷ sinks) = logged_error (run sink) ++ exits run sinks

abbrev failure {ℓ} : {A : Type ℓ} → Result A → Option Error
failure (ok a) = none
failure (err e) = some e

module _ {f : Floats} (models : Models f) (host : Host) ⦃u : Unicode⦄ where
  -- What serve_http does with NATS: the stream, the sinks and the ingress.
  unfoldable pub start_publishing :
      Context → List String → Service → Result (Service × List Sink × List Error)
  start_publishing ctx syms s =
      build_sinks host.build_sink (ctx.string_slice "analytic-sink") >>= λ sinks.
      (let (s', feed) = start_ingress host.answer syms host.attempt s in
        ok (
          s',
          sinks,
          logged_error (ensure_quotes_stream host.jetstream host.update_stream)
              ++ (exits host.run_sink sinks ++ logged_error (failure feed)),
        ))

  -- The call of RunHTTPServer at the end.
  unfoldable pub served_with : Context → Service → List Sink → List Error → Serving f
  served_with ctx s sinks logged = record {
    log_level = ctx.int "log-level";
    addr = ctx.string "listen-port";
    tw_endpoint = ctx.string "tastyworks-endpoint";
    dx_endpoint = ctx.string "dxfeed-endpoint";
    nats_browser_url = ctx.string "nats-browser-url";
    dev_mode = ctx.bool "dev-mode";
    service = s;
    registry = build_llm_registry models ctx;
    sinks = sinks;
    logged = logged;
  }

  unfoldable pub serve_http : Context → Result (Serving f)
  unfolding served_with
  serve_http ctx = elim (require_flags ctx.string (required_flags ctx)) [
    | some e ↦ err e
    | none ↦ setup_service host.nats (ctx.bool "minimal-setup") ctx >>= λ tts.
        resolve_stream_symbols (host.rest_of tts.provider) f ctx >>= λ syms.
        (if ctx.bool "minimal-setup"
          then ok (served_with ctx tts.service [] [])
          else start_publishing ctx syms tts.service >>= λ (s, sinks, logged).
              ok (served_with ctx s sinks logged))
  ]
