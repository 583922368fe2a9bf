-- ===== src/Prompt.antt =====
-- What the providers send to a language model: FilterSchemaJSON and SystemPrompt of
-- service/llm/provider.go, and the bodies of the requests of anthropic.go, openai.go and gemini.go.
use Prim.Native.String.{◌++◌}
use godxfeed.Common.{String, true, false, List, [], ◌∷◌}
use godxfeed.Gemini.{
  Json, Items, Fields, boolean, number, string, array, object, nil, cons, empty, field,
  gemini_schema,
}

abbrev items : List Json → Items
items [] = nil
items (v ∷ vs) = cons v (items vs)

abbrev fields : List (String × Json) → Fields
fields [] = empty
fields ((k, v) ∷ kvs) = field k v (fields kvs)

abbrev concat : List String → String
concat [] = ""
concat (s ∷ ss) = s ++ concat ss

-- The schema, decoded.
unfoldable pub filter_schema : Fields
filter_schema = fields (
    ("type", string "object")
    ∷ (
      "properties",
      object (
          fields (
            (
              "root",
              object (
                  fields (
                    ("type", string "string")
                    ∷ (
                      "description",
                      string "Underlying ticker the user named (e.g. SPY, AAPL). Required.",
                    )
                    ∷ [])),
            )
            ∷ (
              "event_types",
              object (
                  fields (
                    ("type", string "array")
                    ∷ (
                      "items",
                      object (
                          fields (
                            ("type", string "string")
                            ∷ (
                              "enum",
                              array (
                                  items (
                                    (string "Quote")
                                    ∷ (string "Greeks")
                                    ∷ (string "TheoPrice")
                                    ∷ (string "Underlying")
                                    ∷ [])),
                            )
                            ∷ [])),
                    )
                    ∷ (
                      "description",
                      string "dxFeed event streams to subscribe. Default [\"Quote\"] if empty.",
                    )
                    ∷ [])),
            )
            ∷ (
              "kind",
              object (
                  fields (
                    ("type", string "string")
                    ∷ (
                      "enum",
                      array (
                          items (
                            (string "call") ∷ (string "put") ∷ (string "both") ∷ (string "") ∷ [])),
                    )
                    ∷ (
                      "description",
                      string "Option kind filter. Empty string means equity only (no options).",
                    )
                    ∷ [])),
            )
            ∷ (
              "expiry_window",
              object (
                  fields (
                    ("type", array (items ((string "object") ∷ (string "null") ∷ [])))
                    ∷ (
                      "properties",
                      object (
                          fields (
                            (
                              "min",
                              object (
                                  fields (
                                    ("type", string "string")
                                    ∷ ("description", string "Inclusive min expiry, YYYY-MM-DD")
                                    ∷ [])),
                            )
                            ∷ (
                              "max",
                              object (
                                  fields (
                                    ("type", string "string")
                                    ∷ ("description", string "Inclusive max expiry, YYYY-MM-DD")
                                    ∷ [])),
                            )
                            ∷ [])),
                    )
                    ∷ ("required", array (items ((string "min") ∷ (string "max") ∷ [])))
                    ∷ ("additionalProperties", boolean false)
                    ∷ [])),
            )
            ∷ (
              "strike_window",
              object (
                  fields (
                    ("type", array (items ((string "object") ∷ (string "null") ∷ [])))
                    ∷ (
                      "properties",
                      object (
                          fields (
                            ("min", object (fields (("type", string "number") ∷ [])))
                            ∷ ("max", object (fields (("type", string "number") ∷ [])))
                            ∷ [])),
                    )
                    ∷ ("required", array (items ((string "min") ∷ (string "max") ∷ [])))
                    ∷ ("additionalProperties", boolean false)
                    ∷ [])),
            )
            ∷ (
              "include_equity",
              object (
                  fields (
                    ("type", string "boolean")
                    ∷ ("description", string "Also subscribe the underlying equity quote.")
                    ∷ [])),
            )
            ∷ [])),
    )
    ∷ (
      "required",
      array (
          items (
            (string "root")
            ∷ (string "event_types")
            ∷ (string "kind")
            ∷ (string "expiry_window")
            ∷ (string "strike_window")
            ∷ (string "include_equity")
            ∷ [])),
    )
    ∷ ("additionalProperties", boolean false)
    ∷ [])

-- The text before and after the date.
abbrev prompt_start : List String
prompt_start =
    "You are a subscription-filter extractor for a market-data service.\n"
    ∷ "Given a trader's natural-language request, emit a JSON object matching\n"
    ∷ "the provided schema. Extract only what the user implied; do not invent\n"
    ∷ "symbols, strikes, or expiries.\n" ∷ "\n" ∷ "Today is " ∷ []

abbrev prompt_end : List String
prompt_end =
    ". Resolve all relative dates (e.g. \"next Friday\", \"in March\",\n"
    ∷ "\"expiring this month\") to absolute YYYY-MM-DD values using this date.\n" ∷ "\n"
    ∷ "If the user asks for options in a kind-unambiguous way (\"SPY calls\n"
    ∷ "expiring Friday\"), set kind accordingly and include_equity=false unless\n"
    ∷ "they also asked for the underlying. If the user says just \"SPY\" with no\n"
    ∷ "option qualifiers, set kind=\"\" and include_equity=true.\n" ∷ "\n"
    ∷ "Default event_types to [\"Quote\"] if none is specified. Use \"Greeks\"\n"
    ∷ "only when the user mentions delta/gamma/theta/vega/volatility or\n"
    ∷ "explicitly asks for Greeks; \"TheoPrice\" when they mention theoretical\n"
    ∷ "price; \"Underlying\" when they mention IV/putCallRatio/front-back vol." ∷ []

-- SystemPrompt, at the date that Format has made of the time.
unfoldable pub system_prompt : String → String
system_prompt date = concat prompt_start ++ (date ++ concat prompt_end)

-- {"role": …, "content": …}
abbrev turn : String → String → Json
turn role content = object (fields (("role", string role) ∷ ("content", string content) ∷ []))

unfoldable pub anthropic_body : String → String → String → Fields → Json
unfolding system_prompt
anthropic_body model date text schema = object (
    fields (
      ("model", string model)
      ∷ ("max_tokens", number "1024")
      ∷ ("system", string (system_prompt date))
      ∷ ("messages", array (items (turn "user" text ∷ [])))
      ∷ (
        "tools",
        array (
            items (
              object (
                fields (
                  ("name", string "extract_filter")
                  ∷ (
                    "description",
                    string "Emit a structured subscription filter derived from the user's request.",
                  )
                  ∷ ("input_schema", object schema)
                  ∷ []))
              ∷ [])),
      )
      ∷ (
        "tool_choice",
        object (fields (("type", string "tool") ∷ ("name", string "extract_filter") ∷ [])),
      )
      ∷ []))

unfoldable pub openai_body : String → String → String → Fields → Json
unfolding system_prompt
openai_body model date text schema = object (
    fields (
      ("model", string model)
      ∷ ("messages", array (items (turn "system" (system_prompt date) ∷ turn "user" text ∷ [])))
      ∷ (
        "response_format",
        object (
            fields (
              ("type", string "json_schema")
              ∷ (
                "json_schema",
                object (
                    fields (
                      ("name", string "filter_spec")
                      ∷ ("schema", object schema)
                      ∷ ("strict", boolean true)
                      ∷ [])),
              )
              ∷ [])),
      )
      ∷ []))

-- {"parts": [{"text": …}]}
abbrev parts : String → String × Json
parts text = ("parts", array (items (object (fields (("text", string text) ∷ [])) ∷ [])))

unfoldable pub gemini_body : String → String → Fields → Json
unfolding system_prompt gemini_schema
gemini_body date text schema = object (
    fields (
      ("systemInstruction", object (fields (parts (system_prompt date) ∷ [])))
      ∷ (
        "contents",
        array (items (object (fields (("role", string "user") ∷ parts text ∷ [])) ∷ [])),
      )
      ∷ (
        "generationConfig",
        object (
            fields (
              ("responseMimeType", string "application/json")
              ∷ ("responseSchema", object (gemini_schema schema))
              ∷ [])),
      )
      ∷ []))
