-- ===== src/Providers.antt =====
-- The providers of service/llm: anthropic.go, openai.go and gemini.go, from the request to the
-- filter. The HTTP client and encoding/json are parameters. A body is a string of bytes, a character
-- for each.
pub mod Reply
pub mod Steps
pub mod Extraction
use Prim.Native.String
use Prim.Native.String.{◌++◌}
use godxfeed.Common.{
  ℕ, zero, suc, ◌/◌, leb, String, Bool, true, false, not, ◌&&◌, Option, none, some, List, [], ◌∷◌,
  eqb, is_empty, if◌then◌else◌, ◌==◌, string_eq,
}
use godxfeed.Exchange.{
  Provider, Transport, exchange, guarded, anthropic_url, openai_url, gemini_url, anthropic_headers,
  openai_headers, gemini_headers,
}
use godxfeed.Prompt.{anthropic_body, openai_body, gemini_body}
use godxfeed.Common.Outcome.{Error, Result, ok, err, fail, wrap, str, num, ◌>>=◌, context}

-- The responses, as encoding/json decodes them.
pub record AnthropicBlock : Type 0 where
  pub kind : String
  pub name : String
  pub input : String

pub record AnthropicResponse : Type 0 where
  pub content : List AnthropicBlock
  pub stop_reason : String

pub record OpenAiChoice : Type 0 where
  pub finish_reason : String
  pub content : String
  pub refusal : String

pub record GeminiCandidate : Type 0 where
  pub finish_reason : String
  pub parts : List String

pub record GeminiResponse : Type 0 where
  pub candidates : List GeminiCandidate
  pub block_reason : String

-- The text of a candidate: its parts, one after the other.
unfoldable pub text_of_parts : String → List String → String
text_of_parts text [] = text
text_of_parts text (part ∷ parts) =
    text_of_parts (if not (part == "") then text ++ part else text) parts

-- `parse` is json.Unmarshal into a FilterSpec, of any type.
module _ {ℓ} {A : Type ℓ} (parse : String → Result A) where
  unfoldable pub parse_filter_json : String → Result A
  parse_filter_json raw = context (wrap "llm: parse filter json: %w" []) (parse raw)

  -- The loop over the blocks of a response.
  unfoldable pub from_blocks : String → List AnthropicBlock → Result A
  unfolding parse_filter_json
  from_blocks stop_reason [] = err (
      fail "anthropic: no extract_filter tool_use in response (stop_reason=%q)"
        (str stop_reason ∷ []))
  from_blocks stop_reason (blk ∷ blks) =
      let rest = from_blocks stop_reason blks in
      if blk.kind == "tool_use" && blk.name == "extract_filter"
      then (if blk.input == ""
          then err (fail "anthropic: tool_use block has empty input" [])
          else parse_filter_json blk.input)
      else rest

  unfoldable pub from_choices : List OpenAiChoice → Result A
  unfolding parse_filter_json
  from_choices [] = err (fail "openai: response has zero choices" [])
  from_choices (choice ∷ choices) =
      if not (choice.refusal == "")
      then err (fail "openai: model refused: %s" (str choice.refusal ∷ []))
      else if choice.content == ""
      then err
          (fail "openai: empty message content (finish_reason=%q)" (str choice.finish_reason ∷ []))
      else parse_filter_json choice.content

  unfoldable pub from_candidates : String → List GeminiCandidate → Result A
  unfolding parse_filter_json text_of_parts
  from_candidates block_reason [] =
      if not (block_reason == "")
      then err (fail "gemini: prompt blocked: %s" (str block_reason ∷ []))
      else err (fail "gemini: response has zero candidates" [])
  from_candidates block_reason (cand ∷ cands) =
      let text = text_of_parts "" cand.parts in
      if not (cand.finish_reason == "") && not (cand.finish_reason == "STOP")
      then err (fail "gemini: non-STOP finish reason %q" (str cand.finish_reason ∷ []))
      else if text == ""
      then err (fail "gemini: empty text in candidate content" [])
      else parse_filter_json text

  module _ (t : Transport) (date text : String) where
    -- `decode` is json.Unmarshal into the response.
    unfoldable pub anthropic_extract : (String → Result AnthropicResponse) → Provider → Result A
    unfolding guarded exchange from_blocks anthropic_url anthropic_headers anthropic_body
    anthropic_extract decode p = guarded "anthropic" p (
        context (wrap "anthropic: embed schema: %w" []) t.schema >>= λ schema.
        exchange "anthropic" t (anthropic_url p) (anthropic_headers p)
          (anthropic_body p.model date text schema)
        >>= λ raw. context (wrap "anthropic: parse response: %w" []) (decode raw) >>= λ parsed.
            from_blocks parsed.stop_reason parsed.content)

    unfoldable pub openai_extract : (String → Result (List OpenAiChoice)) → Provider → Result A
    unfolding guarded exchange from_choices openai_url openai_headers openai_body
    openai_extract decode p = guarded "openai" p (
        context (wrap "openai: embed schema: %w" []) t.schema >>= λ schema.
        exchange "openai" t (openai_url p) (openai_headers p) (openai_body p.model date text schema)
        >>= λ raw. context (wrap "openai: parse response: %w" []) (decode raw) >>= from_choices)

    unfoldable pub gemini_extract : (String → Result GeminiResponse) → Provider → Result A
    unfolding guarded exchange from_candidates gemini_url gemini_headers gemini_body
    gemini_extract decode p = guarded "gemini" p (
        context (wrap "gemini: parse shared schema: %w" []) t.schema >>= λ schema.
        exchange "gemini" t (gemini_url p) (gemini_headers p) (gemini_body date text schema)
        >>= λ raw. context (wrap "gemini: parse response: %w" []) (decode raw) >>= λ parsed.
            from_candidates parsed.block_reason parsed.candidates)

-- The interface Provider: one of the three, with its json.Unmarshal.
pub data Vendor : Type 0 where
  anthropic : (String → Result AnthropicResponse) → Vendor
  openai : (String → Result (List OpenAiChoice)) → Vendor
  gemini : (String → Result GeminiResponse) → Vendor

unfoldable pub extract {ℓ} :
    {A : Type ℓ} (parse : String → Result A)
    → Transport
    → String
    → String
    → Vendor
    → Provider
    → Result A
unfolding anthropic_extract openai_extract gemini_extract
extract parse t date text (anthropic decode) p = anthropic_extract parse t date text decode p
extract parse t date text (openai decode) p = openai_extract parse t date text decode p
extract parse t date text (gemini decode) p = gemini_extract parse t date text decode p
