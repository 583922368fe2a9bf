-- ===== src/Cli/Flags/Reads.antt =====
-- serve_http reads only flags that its command declares, each with the accessor of its type.
use mathlib.Core.Path.{ap₂}
use godxfeed.Common.{
  String, ◌≡◌, refl, ap, ◌∙◌, none, some, Bool-cases, inl, inr, Bool, true, false, List, [], ◌∷◌,
  All, if◌then◌else◌, ◌==◌, string_eq,
}
use godxfeed.Common.Outcome.{Error, ok, err, wrap, context, ◌>>=◌}
use godxfeed.Common.Text.{Unicode}
use godxfeed.Common.Floats.{Floats}
use godxfeed.Cli.{
  Context, oauth_cfg_from_ctx, provider_of, nats_settings, setup_service, required_flags,
  resolve_stream_symbols,
}
use godxfeed.Cli.Flags.{
  Command, flag_of, reads_text, reads_whole, reads_switch, reads_texts, http_server_command,
  oauth_flags, nats_flags,
}
use godxfeed.Cli.Registry.{Models, with_key, llm_providers, build_llm_registry}
use godxfeed.Sinks.{Sink}
use godxfeed.Cli.Startup.{served_with, Host, start_publishing, serve_http}
use godxfeed.EnvFile.{missing, require_flags}
use godxfeed.Service.{Service, new_service}
use godxfeed.Service.Symbols.{Rest}
use godxfeed.NatsAuth.{NatsSettings, NatsCalls, setup_nats_with_auth_callout}
use godxfeed.Oauth.{new_token_provider}

-- Two command lines that give the flags of a command the same values.
pub record IsSame (c : Command) (ctx ctx' : Context) : Type 0 where
  pub strings : (n : String) → reads_text (flag_of n c.flags) ≡ true → ctx.string n ≡ ctx'.string n
  pub ints : (n : String) → reads_whole (flag_of n c.flags) ≡ true → ctx.int n ≡ ctx'.int n
  pub bools : (n : String) → reads_switch (flag_of n c.flags) ≡ true → ctx.bool n ≡ ctx'.bool n
  pub slices :
      (n : String)
      → reads_texts (flag_of n c.flags) ≡ true
      → ctx.string_slice n ≡ ctx'.string_slice n

missing_same :
    (value value' : String → String) (names : List String)
    → All (λ n. value n ≡ value' n) names
    → missing value names ≡ missing value' names
unfolding missing
missing_same value value' [] h = refl
missing_same value value' (n ∷ names) (h, hs) = rw (h, missing_same value value' names hs) refl

require_flags_same :
    (value value' : String → String) (names : List String)
    → All (λ n. value n ≡ value' n) names
    → require_flags value names ≡ require_flags value' names
unfolding require_flags
require_flags_same value value' names h = rw (missing_same value value' names h) refl

module _ (ctx ctx' : Context) (same : IsSame http_server_command ctx ctx') where
  required_flags_same : required_flags ctx ≡ required_flags ctx'
  unfolding required_flags http_server_command flag_of oauth_flags nats_flags
  required_flags_same = rw (same.strings "dxfeed-url" refl, same.bools "minimal-setup" refl) refl

  -- A flag that holds a text.
  string_same :
      (n : String)
      → reads_text (flag_of n http_server_command.flags) ≡ true
      → ctx.string n ≡ ctx'.string n
  string_same n h = same.strings n h

  required_read : All (λ n. ctx.string n ≡ ctx'.string n) (required_flags ctx)
  unfolding required_flags http_server_command flag_of oauth_flags nats_flags
  required_read =
      let s = same.strings in
      elim (Bool-cases (ctx.string "dxfeed-url" == "")) [
        | inl gateway ↦ elim (Bool-cases (ctx.bool "minimal-setup")) [
          | inl minimal ↦
              rw (gateway, minimal)
                (s _ refl, (s _ refl, (s _ refl, (s _ refl, (s _ refl, (s _ refl, tt))))))
          | inr full ↦
              rw (gateway, full)
                (
                  s _ refl,
                  (
                    s _ refl,
                    (
                      s _ refl,
                      (
                        s _ refl,
                        (
                          s _ refl,
                          (
                            s _ refl,
                            (
                              s _ refl,
                              (s _ refl, (s _ refl, (s _ refl, (s _ refl, (s _ refl, tt))))),
                            ),
                          ),
                        ),
                      ),
                    ),
                  ),
                )
        ]
        | inr mock ↦ elim (Bool-cases (ctx.bool "minimal-setup")) [
          | inl minimal ↦ rw (mock, minimal) (s _ refl, (s _ refl, (s _ refl, tt)))
          | inr full ↦
              rw (mock, full)
                (
                  s _ refl,
                  (
                    s _ refl,
                    (
                      s _ refl,
                      (s _ refl, (s _ refl, (s _ refl, (s _ refl, (s _ refl, (s _ refl, tt)))))),
                    ),
                  ),
                )
        ]
      ]

  oauth_cfg_same : oauth_cfg_from_ctx ctx ≡ oauth_cfg_from_ctx ctx'
  unfolding oauth_cfg_from_ctx http_server_command flag_of oauth_flags nats_flags
  oauth_cfg_same =
      rw
        (
          same.strings "tw-oauth-token-url" refl,
          same.strings "tw-oauth-client-secret" refl,
          same.strings "tw-oauth-refresh-token" refl,
        )
        refl

  provider_of_same : provider_of ctx ≡ provider_of ctx'
  unfolding provider_of http_server_command flag_of oauth_flags nats_flags
  provider_of_same =
      ap₂
        (λ url cfg.
          if url == ""
          then (context (wrap "oauth config: %w" []) (new_token_provider cfg) >>= λ tp.
              ok (some tp))
          else ok none)
        (same.strings "dxfeed-url" refl) oauth_cfg_same

  service_same :
      (has_nats : Bool)
      → new_service (ctx.string "dxfeed-endpoint") (ctx.string "dxfeed-url") has_nats
        ≡ new_service (ctx'.string "dxfeed-endpoint") (ctx'.string "dxfeed-url") has_nats
  unfolding http_server_command flag_of oauth_flags nats_flags
  service_same has_nats =
      ap₂ (λ endpoint url. new_service endpoint url has_nats) (same.strings "dxfeed-endpoint" refl)
        (same.strings "dxfeed-url" refl)

  nats_settings_same : nats_settings ctx ≡ nats_settings ctx'
  unfolding nats_settings http_server_command flag_of oauth_flags nats_flags
  nats_settings_same =
      rw
        (
          same.strings "nats-url" refl,
          same.strings "nats-auth-user" refl,
          same.strings "nats-auth-password" refl,
          same.strings "nats-godxfeed-user" refl,
          same.strings "nats-godxfeed-password" refl,
          same.strings "nats-nkey-seed" refl,
          same.strings "listen-port" refl,
        )
        refl

  setup_service_same :
      (nats : NatsSettings → NatsCalls) (minimal : Bool)
      → setup_service nats minimal ctx ≡ setup_service nats minimal ctx'
  unfolding setup_service
  setup_service_same nats minimal = λ i. provider_of_same i >>= λ tp.
      (if minimal
        then ok (record { service = service_same false i; provider = tp })
        else elim (setup_nats_with_auth_callout (nats (nats_settings_same i))) [
          | some e ↦ err (wrap "could not setup nats: %w" [] e)
          | none ↦ ok (record { service = service_same true i; provider = tp })
        ])

  resolve_stream_symbols_same :
      (rest : Rest) ⦃u : Unicode⦄ (f : Floats)
      → resolve_stream_symbols rest f ctx ≡ resolve_stream_symbols rest f ctx'
  unfolding resolve_stream_symbols http_server_command flag_of oauth_flags nats_flags
  resolve_stream_symbols_same rest f =
      rw
        (
          same.ints "max-symbol-count" refl,
          same.strings "symbol-method" refl,
          same.strings "tastyworks-endpoint" refl,
          same.slices "symbols" refl,
        )
        refl

  build_llm_registry_same :
      {f : Floats} (models : Models f)
      → build_llm_registry models ctx ≡ build_llm_registry models ctx'
  unfolding build_llm_registry llm_providers with_key http_server_command flag_of oauth_flags
      nats_flags
  build_llm_registry_same models =
      rw
        (
          same.strings "anthropic-api-key" refl,
          same.strings "anthropic-model" refl,
          same.strings "openai-api-key" refl,
          same.strings "openai-model" refl,
          same.strings "gemini-api-key" refl,
          same.strings "gemini-model" refl,
          same.strings "llm-default" refl,
        )
        refl

  served_with_same :
      {f : Floats} (models : Models f) (host : Host) ⦃u : Unicode⦄ (s : Service) (sinks : List Sink)
      (logged : List Error)
      → served_with models host ctx s sinks logged ≡ served_with models host ctx' s sinks logged
  unfolding served_with http_server_command flag_of oauth_flags nats_flags
  served_with_same models host s sinks logged =
      rw
        (
          same.ints "log-level" refl,
          same.strings "listen-port" refl,
          same.strings "tastyworks-endpoint" refl,
          same.strings "dxfeed-endpoint" refl,
          same.strings "nats-browser-url" refl,
          same.bools "dev-mode" refl,
          build_llm_registry_same models,
        )
        refl

  start_publishing_same :
      {f : Floats} (models : Models f) (host : Host) ⦃u : Unicode⦄ (syms : List String)
      (s : Service)
      → start_publishing models host ctx syms s ≡ start_publishing models host ctx' syms s
  unfolding start_publishing http_server_command flag_of oauth_flags nats_flags
  start_publishing_same models host syms s = rw (same.slices "analytic-sink" refl) refl

-- Two command lines that give the flags of the command http-server the same values start the same
-- server, whatever else they hold: serve_http reads only flags that the command declares, and each
-- with the accessor of its type, since the package answers "" or 0 for any other.
pub serve_http_reads_declared :
    {f : Floats} (models : Models f) (host : Host) ⦃u : Unicode⦄ (ctx ctx' : Context)
    → IsSame http_server_command ctx ctx'
    → serve_http models host ctx ≡ serve_http models host ctx'
unfolding serve_http http_server_command flag_of oauth_flags nats_flags
serve_http_reads_declared {f} models host ctx ctx' same =
    let read =
      require_flags_same ctx.string ctx'.string (required_flags ctx) (required_read ctx ctx' same)
      ∙ ap (require_flags ctx'.string) (required_flags_same ctx ctx' same) in
    let minimal = same.bools "minimal-setup" refl in
    let made =
      setup_service_same ctx ctx' same host.nats (ctx.bool "minimal-setup")
      ∙ ap (λ b. setup_service host.nats b ctx') minimal in
    λ i. elim (read i) [
      | some e ↦ err e
      | none ↦ made i >>= λ tts.
          resolve_stream_symbols_same ctx ctx' same (host.rest_of tts.provider) f i >>= λ syms.
          (if minimal i
            then ok (served_with_same ctx ctx' same models host tts.service [] [] i)
            else start_publishing_same ctx ctx' same models host syms tts.service i
              >>= λ (s, sinks, logged).
                  ok (served_with_same ctx ctx' same models host s sinks logged i))
    ]
