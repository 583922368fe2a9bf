-- ===== src/Cli/Registry/Asks.antt =====
-- The providers of the registry ask the vendors with the keys of the command line.
use mathlib.Core.Path.{subst}
use godxfeed.Common.{
  ==_sound, String, ◌≡◌, ◌⊎◌, inl, inr, ap, some, [], arith, ◌==◌, string_eq, Bool-cases,
}
use godxfeed.Common.Dict.{Dict, lookup, lookup-insert}
use godxfeed.Common.Floats.{Floats}
use godxfeed.Cli.{Context}
use godxfeed.Cli.Registry.{Models, provider, with_key, llm_providers}
use godxfeed.Exchange.{
  Provider as Settings, new_anthropic_provider, new_openai_provider, new_gemini_provider,
  or_default,
}
use godxfeed.Http.Natural.{Provider}
use godxfeed.Providers.{Vendor, anthropic, openai, gemini, extract}
use godxfeed.Subscriptions.{key_eq}

module _ {f : Floats} (m : Models f) (ctx : Context) where
  abbrev pub anthropic_settings : String → Settings
  anthropic_settings key =
      new_anthropic_provider key (or_default (ctx.string "anthropic-model") "claude-opus-4-7")

  abbrev pub openai_settings : String → Settings
  openai_settings key = new_openai_provider key (or_default (ctx.string "openai-model") "gpt-4o")

  abbrev pub gemini_settings : String → Settings
  gemini_settings key =
      new_gemini_provider key (or_default (ctx.string "gemini-model") "gemini-2.5-pro")

  -- The vendors by their names, each with its json.Unmarshal, and its key and model of the flags.
  pub data Asked : String → Vendor → Settings → Type 0 where
    asked_anthropic :
        Asked "anthropic"
          (anthropic m.decode_anthropic)
          (anthropic_settings (ctx.string "anthropic-api-key"))
    asked_openai :
        Asked "openai" (openai m.decode_openai) (openai_settings (ctx.string "openai-api-key"))
    asked_gemini :
        Asked "gemini" (gemini m.decode_gemini) (gemini_settings (ctx.string "gemini-api-key"))

  -- The provider asks the vendor of that name.
  abbrev pub Asks : String → Provider f → Type 0
  Asks name p =
      (v : Vendor) × (settings : Settings) × Asked name v settings
      × ((text : String) → p.extract text ≡ extract m.parse m.transport m.date text v settings)

  lookup-with_key :
      (j flag name : String) (make : String → Provider f) (d : Dict String (Provider f))
      (p : Provider f)
      → lookup j (with_key m ctx flag name make d) ≡ some p
      → ((name ≡ j) × (p ≡ make (ctx.string flag))) ⊎ (lookup j d ≡ some p)
  unfolding with_key
  lookup-with_key j flag name make d p h = elim (Bool-cases (ctx.string flag == "")) [
    | inl absent ↦ inr (ground (arith, h, absent))
    | inr given ↦ elim (Bool-cases (name == j)) [
      | inl same ↦ inl (
        ==_sound name j same,
        ground (arith, h, given, same, lookup-insert name j (make (ctx.string flag)) d),
      )
      | inr other ↦
          inr (ground (arith, h, given, other, lookup-insert name j (make (ctx.string flag)) d))
    ]
  ]

  abbrev asks_anthropic : String → Provider f
  asks_anthropic key =
      provider m ctx "anthropic" (anthropic m.decode_anthropic) (anthropic_settings key)

  abbrev asks_openai : String → Provider f
  asks_openai key = provider m ctx "openai" (openai m.decode_openai) (openai_settings key)

  abbrev asks_gemini : String → Provider f
  asks_gemini key = provider m ctx "gemini" (gemini m.decode_gemini) (gemini_settings key)

  abbrev first_two : Dict String (Provider f)
  first_two =
      with_key m ctx "openai-api-key" "openai" asks_openai
        (with_key m ctx "anthropic-api-key" "anthropic" asks_anthropic [])

  -- A provider that is registered asks the vendor of its name, with its key.
  pub llm_providers-Asks :
      (name : String) (p : Provider f) → lookup name (llm_providers m ctx) ≡ some p → Asks name p
  unfolding llm_providers provider new_anthropic_provider new_openai_provider new_gemini_provider
      lookup
  llm_providers-Asks name p h =
      elim (lookup-with_key name "gemini-api-key" "gemini" asks_gemini first_two p h) [
        | inl (same, gem) ↦
            subst (λ n. Asks n p) same
              (gemini m.decode_gemini, _, asked_gemini, λ text. ap (λ q. q.extract text) gem)
        | inr more ↦
            elim (lookup-with_key name "openai-api-key" "openai" asks_openai
              (with_key m ctx "anthropic-api-key" "anthropic" asks_anthropic []) p more) [
                | inl (same, oai) ↦
                    subst (λ n. Asks n p) same
                      (
                        openai m.decode_openai,
                        _,
                        asked_openai,
                        λ text. ap (λ q. q.extract text) oai,
                      )
                | inr last ↦
                    elim (lookup-with_key name "anthropic-api-key" "anthropic" asks_anthropic [] p
                      last) [
                        | inl (same, anth) ↦
                            subst (λ n. Asks n p) same
                              (
                                anthropic m.decode_anthropic,
                                _,
                                asked_anthropic,
                                λ text. ap (λ q. q.extract text) anth,
                              )
                        | inr none_left ↦ absurd (ground (arith, none_left))
                      ]
              ]
      ]
