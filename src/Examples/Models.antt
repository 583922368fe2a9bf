-- ===== src/Examples/Models.antt =====
-- Witnesses of the theorems on the language models.
use godxfeed.Common.{String, ◌≡◌, refl, true, false, none, List, [], ◌∷◌, ◌==◌, string_eq}
use godxfeed.Common.Outcome.{Result, ok}
use godxfeed.Exchange.{Provider, Transport, new_openai_provider}
use godxfeed.Prompt.{filter_schema}
use godxfeed.Providers.{OpenAiChoice, openai, extract}
use godxfeed.Providers.Reply.{IsReply, Carries, json_of, request_of}
use godxfeed.Providers.Extraction.{extract_sound}
use godxfeed.Gemini.{Fields, boolean, string, array, object, nil, cons, empty, field, gemini_schema}
use godxfeed.Gemini.Accepted.{accepted}
use godxfeed.Gemini.Schema.{gemini_schema-accepted}

-- The parts of the shared schema that the rewriting is about.
abbrev shared_schema : Fields
shared_schema = field "type" (string "object") (
    field "properties"
      (object (
        field "kind"
          (object (
            field "type" (string "string")
              (field "enum" (array (cons (string "call") (cons (string "") nil))) empty)))
          (field "expiry_window"
            (object (
              field "type" (array (cons (string "object") (cons (string "null") nil)))
                (field "additionalProperties" (boolean false) empty)))
            empty)))
      (field "additionalProperties" (boolean false) empty))

gemini_schema-accepted_example : accepted (object (gemini_schema shared_schema)) ≡ true
gemini_schema-accepted_example = gemini_schema-accepted shared_schema

adapted_test :
    gemini_schema shared_schema
    ≡ field "type" (string "object") (
        field "properties"
          (object (
            field "kind"
              (object (
                field "type"
                  (string "string")
                  (field "enum" (array (cons (string "call") nil)) empty)))
              (field "expiry_window"
                (object (field "type" (string "object") (field "nullable" (boolean true) empty)))
                empty)))
          empty)
unfolding gemini_schema
adapted_test = refl

abbrev gpt : Provider
gpt = new_openai_provider "sk" "gpt-4o"

-- A client that answers every request; the marshaller gives the empty text.
abbrev pub answering : Transport
answering = record {
  schema = ok filter_schema;
  marshal = λ json. ok "";
  build = λ url. none;
  send = λ request. ok (record { status = 200; body = ok "{…}" });
}

abbrev pub answers : String → Result (List OpenAiChoice)
answers raw = ok (record { finish_reason = "stop"; content = "SPY"; refusal = "" } ∷ [])

-- A filter stands for its root.
extract_sound_example :
    ((gpt.api_key == "") ≡ false)
    × ((gpt.model == "") ≡ false)
    × (schema : Fields) × (answering.schema ≡ ok schema)
    × (body : String) × (answering.marshal
          (json_of (openai answers) gpt "2026-05-01 (Friday)" "SPY" schema)
        ≡ ok body)
    × (raw : String) × IsReply answering (request_of (openai answers) gpt body) raw
    × (answer : String) × Carries (openai answers) raw answer
    × ((answer == "") ≡ false)
    × (◌≡◌ {A = Result String} (ok answer) (ok "SPY"))
unfolding extract new_openai_provider
extract_sound_example =
    extract_sound (λ answer. ok answer) answering "2026-05-01 (Friday)" "SPY" (openai answers) gpt
      "SPY" refl
