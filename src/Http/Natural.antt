-- ===== src/Http/Natural.antt =====
-- http/handlers_nl.go: from a sentence to subscriptions.
use godxfeed.Common.{
  String, none, some, List, [], ◌∷◌, map, is_empty, if◌then◌else◌, ◌==◌, string_eq,
}
use godxfeed.Common.Dict.{Dict, lookup}
use godxfeed.Common.Outcome.{Result, ok, err, fail, wrap, str, ◌>>=◌, context}
use godxfeed.Common.Text.{Unicode}
use godxfeed.Common.Floats.{Floats}
use godxfeed.Api.{OptionSymbol}
use godxfeed.Subject.{subject_for}
use godxfeed.Subscriptions.{FeedSub, FeedController}
use godxfeed.Service.{Service, bulk_add_subscriptions}
use godxfeed.Service.Symbols.{Rest, get_symbol_data}
use godxfeed.Resolver.{FilterSpec, Sub, SymbologySource, resolve}
use godxfeed.Http.{
  error_text, error_of, subscribed, Out, Handler, write_json_response, write_internal_error,
  write_bad_request_error,
}
use godxfeed.Http.Handlers.{BodyDecoder}

-- llm.Provider: its name, and Extract at the time of the request.
pub record Provider (f : Floats) : Type 0 where
  pub name : String
  pub extract : String → Result (FilterSpec f)

pub record ProviderRegistry (f : Floats) : Type 0 where
  pub providers : Dict String (Provider f)
  pub default : String

pub record NlSubscribeRequest : Type 0 where
  pub text : String
  pub provider : String

-- serviceSymbology
module _ (endpoint : String) (rest : Rest) ⦃u : Unicode⦄ where
  unfoldable pub equity_streamer_symbol : String → Result String
  unfolding get_symbol_data
  equity_streamer_symbol root = get_symbol_data endpoint rest root "equities" >>= λ resp.
      context (wrap "parse equity symbol: %w" []) (rest.equity resp.data_text) >>= λ eq.
      ok (if eq.streamer_symbol == "" then eq.symbol else eq.streamer_symbol)

  unfoldable pub option_symbols : String → Result (List OptionSymbol)
  unfolding get_symbol_data
  option_symbols root = get_symbol_data endpoint rest root "options" >>= λ resp.
      context (wrap "parse option chain: %w" []) (rest.options resp.data_text)

  unfoldable pub service_symbology : SymbologySource
  unfolding equity_streamer_symbol option_symbols
  service_symbology = record {
    equity_streamer_symbol = equity_streamer_symbol;
    option_symbols = option_symbols;
  }

-- registryNames
abbrev pub registry_names {ℓ} : {A : Type ℓ} → Dict String A → List String
registry_names [] = []
registry_names ((n, p) ∷ d) = n ∷ registry_names d

abbrev pub pairs_of : List Sub → List FeedSub
pairs_of [] = []
pairs_of (x ∷ subs) = record { event = x.event; symbol = x.symbol } ∷ pairs_of subs

abbrev pub with_subjects : ⦃u : Unicode⦄ → List Sub → List (Sub × String)
with_subjects [] = []
with_subjects (x ∷ subs) = (x, subject_for x.event x.symbol) ∷ with_subjects subs

module _ (f : Floats) (answer : FeedController) (source : SymbologySource)
    (decode : BodyDecoder NlSubscribeRequest) ⦃u : Unicode⦄ where
  -- handleNLSubscribe from Resolve on. The filter that the reply also shows is not kept.
  unfoldable pub dispatch : String → FilterSpec f → Service → Service × Out
  unfolding resolve bulk_add_subscriptions write_json_response write_internal_error
      write_bad_request_error
  dispatch name filter s = elim (resolve f source filter) [
    | err e ↦ (s, write_json_response (error_of (wrap "resolve: %s" [] e)) 400)
    | ok subs ↦
        let (s', failed) = bulk_add_subscriptions answer (pairs_of subs) s in
        elim failed [
          | some e ↦ (s', write_internal_error e)
          | none ↦ (s', write_json_response (subscribed name (with_subjects subs)) 200)
        ]
  ]

  -- handleNLSubscribe once its request is parsed.
  unfoldable pub extract_and_dispatch :
      ProviderRegistry f → NlSubscribeRequest → Service → Service × Out
  unfolding dispatch write_json_response write_bad_request_error
  extract_and_dispatch reg req s =
      let name = if req.provider == "" then reg.default else req.provider in
      elim (lookup name reg.providers) [
        | none ↦ (
          s,
          write_bad_request_error (
              fail "unknown provider %q (configured: %v)"
                (str name ∷ map str (registry_names reg.providers))),
        )
        | some prov ↦ elim (prov.extract req.text) [
          | err e ↦ (s, write_json_response (error_of (wrap "extract: %s" [] e)) 502)
          | ok filter ↦ dispatch prov.name filter s
        ]
      ]

  unfoldable pub handle_nl_subscribe : ProviderRegistry f → Handler
  unfolding extract_and_dispatch write_json_response write_bad_request_error
  handle_nl_subscribe reg r s =
      if is_empty reg.providers
      then (
        s,
        write_json_response (error_text "nl-subscribe not configured (no LLM providers registered)")
            503,
      )
      else elim (decode r.limit r.body) [
        | err e ↦ (s, write_bad_request_error (wrap "parse body: %w" [] e))
        | ok req ↦
            if req.text == ""
            then (s, write_bad_request_error (fail "text is required" []))
            else extract_and_dispatch reg req s
      ]
