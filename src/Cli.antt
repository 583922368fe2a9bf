-- ===== src/Cli.antt =====
-- cmd/godxfeed/services.go and data.go: from the flags of the command line to a service, its symbols,
-- its language models and its sinks. The package that parses flags is a parameter.
pub mod Registry
pub mod Symbols
pub mod Startup
pub mod Tokens
pub mod Flags
use Prim.Native.String
use godxfeed.Common.{
  ℕ, String, Bool, true, false, not, Option, none, some, List, [], ◌∷◌, ◌++◌, if◌then◌else◌, ◌==◌,
  string_eq, is_empty, length, eqb,
}
use godxfeed.Common.Dict.{Dict, insert, has}
use godxfeed.Common.Int64.{signed_lt}
use godxfeed.Common.Outcome.{Error, Result, ok, err, fail, wrap, str, ◌>>=◌, context}
use godxfeed.Common.Text.{Unicode}
use godxfeed.Common.Floats.{Floats}
use godxfeed.Api.{Response}
use godxfeed.EnvFile.{require_flags}
use godxfeed.Exchange.{
  Transport, or_default, new_anthropic_provider, new_openai_provider, new_gemini_provider,
}
use godxfeed.Http.Natural.{ProviderRegistry}
use godxfeed.NatsAuth.{NatsSettings, NatsCalls, setup_nats_with_auth_callout}
use godxfeed.Oauth.{OauthConfig, TokenProvider, new_token_provider}
use godxfeed.Providers.{
  AnthropicResponse, OpenAiChoice, GeminiResponse, Vendor, anthropic, openai, gemini, extract,
}
use godxfeed.Resolver.{FilterSpec}
use godxfeed.Service.{Service, new_service}
use godxfeed.Service.Connect.{Attempt, start_ingress}
use godxfeed.Service.Symbols.{
  Rest, get_symbol_data, get_option_chain, get_stream_symbols, n_related_options,
}
use godxfeed.Sinks.{Factory, Sink, ensure_quotes_stream}
use godxfeed.Subscriptions.{FeedController}

-- cli.Context: the values of the flags. An int is the bit pattern of an int64.
pub record Context : Type 0 where
  pub string : String → String
  pub bool : String → Bool
  pub int : String → ℕ
  pub string_slice : String → List String

unfoldable pub oauth_cfg_from_ctx : Context → OauthConfig
oauth_cfg_from_ctx ctx = record {
  token_url = ctx.string "tw-oauth-token-url";
  client_secret = ctx.string "tw-oauth-client-secret";
  refresh_token = ctx.string "tw-oauth-refresh-token";
}

-- A service and its token provider; with a mock there is none.
pub record Setup : Type 0 where
  pub service : Service
  pub provider : Option TokenProvider

unfoldable pub provider_of : Context → Result (Option TokenProvider)
unfolding oauth_cfg_from_ctx new_token_provider
provider_of ctx =
    let made = new_token_provider (oauth_cfg_from_ctx ctx) in
    if ctx.string "dxfeed-url" == ""
    then (context (wrap "oauth config: %w" []) made >>= λ tp. ok (some tp))
    else ok none

-- What setupService hands to SetupNatsWithAuthCallout.
unfoldable pub nats_settings : Context → NatsSettings
nats_settings ctx = record {
  url = ctx.string "nats-url";
  auth_user = ctx.string "nats-auth-user";
  auth_password = ctx.string "nats-auth-password";
  godxfeed_user = ctx.string "nats-godxfeed-user";
  godxfeed_password = ctx.string "nats-godxfeed-password";
  nkey_seed = ctx.string "nats-nkey-seed";
  callout_endpoint =
      String.◌++◌ "http://localhost:" (String.◌++◌ (ctx.string "listen-port") "/nats-auth-callout");
}

-- setupService with the arguments that its callers read from the flags. `nats` is what the calls of
-- SetupNatsWithAuthCallout return at its arguments.
unfoldable pub setup_service : (NatsSettings → NatsCalls) → Bool → Context → Result Setup
unfolding provider_of setup_nats_with_auth_callout new_service nats_settings
setup_service nats minimal ctx = provider_of ctx >>= λ tp.
    (let service = new_service (ctx.string "dxfeed-endpoint") (ctx.string "dxfeed-url") in
      if minimal
      then ok (record { service = service false; provider = tp })
      else elim (setup_nats_with_auth_callout (nats (nats_settings ctx))) [
        | some e ↦ err (wrap "could not setup nats: %w" [] e)
        | none ↦ ok (record { service = service true; provider = tp })
      ])

-- The flags that serve_http requires.
unfoldable pub required_flags : Context → List String
required_flags ctx =
    ("listen-port" ∷ "tastyworks-endpoint" ∷ "dxfeed-endpoint" ∷ [])
    ++ ((if ctx.string "dxfeed-url" == ""
          then "tw-oauth-token-url" ∷ "tw-oauth-client-secret" ∷ "tw-oauth-refresh-token" ∷ []
          else [])
        ++ (if not (ctx.bool "minimal-setup")
            then "nats-url" ∷ "nats-auth-user" ∷ "nats-auth-password" ∷ "nats-godxfeed-user"
              ∷ "nats-godxfeed-password" ∷ "nats-nkey-seed" ∷ []
            else []))

module _ (rest : Rest) ⦃u : Unicode⦄ (f : Floats) where
  -- The case of n-related.
  unfoldable pub related_to_only : String → ℕ → List String → Result (List String)
  related_to_only endpoint count (sym ∷ []) =
      context (wrap "could not get symbol data: %w" [])
        (get_stream_symbols endpoint rest sym (n_related_options endpoint rest f count))
  related_to_only endpoint count symbols =
      err (fail "symbol method `n-related` requires exactly one symbol" [])

  unfoldable pub resolve_stream_symbols : Context → Result (List String)
  unfolding signed_lt
  resolve_stream_symbols ctx =
      if signed_lt (ctx.int "max-symbol-count") 0
      then err (fail "max-symbol-count must be greater than or equal to 0" [])
      else if ctx.string "symbol-method" == "n-related"
      then related_to_only (ctx.string "tastyworks-endpoint") (ctx.int "max-symbol-count")
          (ctx.string_slice "symbols")
      else ok (ctx.string_slice "symbols")

-- The commands of data.go, up to the printing of the response. `rest_of` is the REST side of a service
-- with a token provider or without.
module _ (rest_of : Option TokenProvider → Rest) (nats : NatsSettings → NatsCalls)
    ⦃u : Unicode⦄ where
  abbrev data_flags : List String
  data_flags =
      "tastyworks-endpoint" ∷ "tw-oauth-token-url" ∷ "tw-oauth-client-secret"
      ∷ "tw-oauth-refresh-token" ∷ "symbol" ∷ []

  abbrev with_flags {ℓ} : {A : Type ℓ} → Context → List String → Result A → Result A
  with_flags ctx names next = elim (require_flags ctx.string names) [ some e ↦ err e | none ↦ next ]

  unfoldable pub get_symbol_data_command : Context → Result Response
  unfolding setup_service get_symbol_data require_flags
  get_symbol_data_command ctx = with_flags ctx data_flags (
      setup_service nats true ctx >>= λ tts.
      get_symbol_data (ctx.string "tastyworks-endpoint") (rest_of tts.provider)
        (ctx.string "symbol") (ctx.string "symbol-type"))

  unfoldable pub get_option_chain_command : Context → Result Response
  unfolding setup_service get_option_chain require_flags
  get_option_chain_command ctx = with_flags ctx data_flags (
      setup_service nats true ctx >>= λ tts.
      get_option_chain (ctx.string "tastyworks-endpoint") (rest_of tts.provider)
        (ctx.string "symbol"))
