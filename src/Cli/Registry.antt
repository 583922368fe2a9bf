-- ===== src/Cli/Registry.antt =====
-- buildLLMRegistry of cmd/godxfeed/services.go.
pub mod Asks
pub mod Served
use godxfeed.Common.{
  String, ◌≡◌, refl, ◌∙◌, Bool, true, not, ◌&&◌, List, [], ◌∷◌, arith, if◌then◌else◌, ◌==◌,
  string_eq, is_empty,
}
use godxfeed.Common.Dict.{Dict, insert, has, has-insert}
use godxfeed.Common.Outcome.{Result}
use godxfeed.Common.Floats.{Floats}
use godxfeed.Cli.{Context}
use godxfeed.Exchange.{
  Provider as Settings, Transport, or_default, new_anthropic_provider, new_openai_provider,
  new_gemini_provider,
}
use godxfeed.Http.Natural.{Provider, ProviderRegistry}
use godxfeed.Providers.{
  AnthropicResponse, OpenAiChoice, GeminiResponse, Vendor, anthropic, openai, gemini, extract,
}
use godxfeed.Resolver.{FilterSpec}

-- What the providers call: json.Unmarshal at their types, the transport, and the date of a request.
pub record Models (f : Floats) : Type 0 where
  pub parse : String → Result (FilterSpec f)
  pub transport : Transport
  pub date : String
  pub decode_anthropic : String → Result AnthropicResponse
  pub decode_openai : String → Result (List OpenAiChoice)
  pub decode_gemini : String → Result GeminiResponse

-- The first of the names that is registered.
unfoldable pub first_registered {ℓ} : {A : Type ℓ} → List String → Dict String A → String
first_registered [] providers = ""
first_registered (n ∷ ns) providers =
    let rest = first_registered ns providers in if has n providers then n else rest

-- The name that --llm-default gives, if it is registered, or else the first one.
unfoldable pub default_of {ℓ} : {A : Type ℓ} → String → Dict String A → String
unfolding first_registered
default_of want providers =
    if has want providers
    then want
    else if is_empty providers
    then ""
    else first_registered ("anthropic" ∷ "openai" ∷ "gemini" ∷ []) providers

has-default_of {ℓ} :
    {A : Type ℓ} (want : String) (d : Dict String A)
    → is_empty d ≡ (not (has "gemini" d) && (not (has "openai" d) && not (has "anthropic" d)))
    → has (default_of want d) d ≡ not (is_empty d)
unfolding default_of
has-default_of want [] h = unfold has in refl
has-default_of want (p ∷ d) h = ground (arith, h)

default_of_order {ℓ} :
    {A : Type ℓ} (want : String) (d : Dict String A)
    → is_empty d ≡ (not (has "gemini" d) && (not (has "openai" d) && not (has "anthropic" d)))
    → default_of want d ≡ (
        if has want d
        then want
        else if has "anthropic" d
        then "anthropic"
        else if has "openai" d
        then "openai"
        else if has "gemini" d
        then "gemini"
        else "")
unfolding default_of
default_of_order want d h = ground (arith, h)

module _ {f : Floats} (m : Models f) (ctx : Context) where
  unfoldable pub provider : String → Vendor → Settings → Provider f
  unfolding extract
  provider name v settings = record {
    name = name;
    extract = λ text. extract m.parse m.transport m.date text v settings;
  }

  -- reg.Providers[name] = …, if the key is given
  unfoldable pub with_key :
      String → String → (String → Provider f) → Dict String (Provider f) → Dict String (Provider f)
  with_key flag name make providers =
      let key = ctx.string flag in
      if not (key == "") then insert name (make key) providers else providers

  unfoldable pub llm_providers : Dict String (Provider f)
  unfolding with_key provider new_anthropic_provider new_openai_provider new_gemini_provider
  llm_providers =
      with_key "gemini-api-key" "gemini"
        (λ key.
          provider "gemini" (gemini m.decode_gemini)
            (new_gemini_provider key (or_default (ctx.string "gemini-model") "gemini-2.5-pro")))
        (with_key "openai-api-key" "openai"
          (λ key.
            provider "openai" (openai m.decode_openai)
              (new_openai_provider key (or_default (ctx.string "openai-model") "gpt-4o")))
          (with_key "anthropic-api-key" "anthropic"
            (λ key. provider "anthropic" (anthropic m.decode_anthropic) (
              new_anthropic_provider key
                (or_default (ctx.string "anthropic-model") "claude-opus-4-7")))
            []))

  unfoldable pub build_llm_registry : ProviderRegistry f
  unfolding llm_providers default_of
  build_llm_registry = record {
    providers = llm_providers;
    default = default_of (ctx.string "llm-default") llm_providers;
  }

  abbrev given : String → Bool
  given flag = not (ctx.string flag == "")

  has-with_key :
      (flag name j : String) (make : String → Provider f) (d : Dict String (Provider f))
      → has j (with_key flag name make d)
        ≡ (if given flag then (if name == j then true else has j d) else has j d)
  unfolding with_key
  has-with_key flag name j make d = ground (arith, has-insert name j (make (ctx.string flag)) d)

  is_empty-with_key :
      (flag name : String) (make : String → Provider f) (d : Dict String (Provider f))
      → is_empty (with_key flag name make d) ≡ (not (given flag) && is_empty d)
  unfolding with_key insert
  is_empty-with_key flag name make [] = ground arith
  is_empty-with_key flag name make ((k, v) ∷ d) = ground arith

  llm_providers_named :
      (has "anthropic" llm_providers ≡ given "anthropic-api-key")
      × (has "openai" llm_providers ≡ given "openai-api-key")
      × (has "gemini" llm_providers ≡ given "gemini-api-key")
      × (is_empty llm_providers ≡ (
          not (given "gemini-api-key")
          && (not (given "openai-api-key") && not (given "anthropic-api-key"))))
  unfolding llm_providers has
  llm_providers_named = (
    simp has-with_key (ground arith),
    simp has-with_key (ground arith),
    simp has-with_key (ground arith),
    simp is_empty-with_key (ground arith),
  )

  build_llm_registry_fields :
      (build_llm_registry.providers ≡ llm_providers)
      × (build_llm_registry.default ≡ default_of (ctx.string "llm-default") llm_providers)
  unfolding build_llm_registry
  build_llm_registry_fields = (refl, refl)

  -- A provider is registered exactly if its key is given; the default is that of llm-default if it is
  -- registered, and otherwise the first registered of anthropic, openai and gemini; and there is a
  -- registered default exactly if there is a provider.
  pub build_llm_registry_default :
      (has "anthropic" build_llm_registry.providers ≡ given "anthropic-api-key")
      × (has "openai" build_llm_registry.providers ≡ given "openai-api-key")
      × (has "gemini" build_llm_registry.providers ≡ given "gemini-api-key")
      × (has build_llm_registry.default build_llm_registry.providers
          ≡ not (is_empty build_llm_registry.providers))
      × (build_llm_registry.default ≡ (
          if has (ctx.string "llm-default") build_llm_registry.providers
          then ctx.string "llm-default"
          else if given "anthropic-api-key"
          then "anthropic"
          else if given "openai-api-key"
          then "openai"
          else if given "gemini-api-key"
          then "gemini"
          else ""))
  build_llm_registry_default =
      let want = ctx.string "llm-default" in
      let (a, o, g, none_given) = llm_providers_named in
      let (p, d) = build_llm_registry_fields in
      let full : is_empty llm_providers ≡ (
          not (has "gemini" llm_providers)
          && (not (has "openai" llm_providers) && not (has "anthropic" llm_providers))) =
        rw (g, o, a) none_given in
      (
        rw p a,
        rw p o,
        rw p g,
        rw (d, p) (has-default_of want llm_providers full),
        rw (d, p) (default_of_order want llm_providers full ∙ rw (a, o, g) refl),
      )
