-- ===== src/Providers/Reply.antt =====
-- What a reply of each provider carries, by its format.
use Prim.Native.String.{◌++◌}
use godxfeed.Common.{
  ◌/◌, String, ◌≡◌, true, ◌&&◌, ◌||◌, Option, none, some, List, [], ◌∷◌, if◌then◌else◌, ◌==◌,
  string_eq,
}
use godxfeed.Common.Outcome.{Result, ok}
use godxfeed.Gemini.{Json, Fields}
use godxfeed.Prompt.{anthropic_body, openai_body, gemini_body}
use godxfeed.Exchange.{
  Provider, HttpRequest, HttpResponse, Transport, anthropic_url, openai_url, gemini_url,
  anthropic_headers, openai_headers, gemini_headers,
}
use godxfeed.Providers.{
  AnthropicBlock, AnthropicResponse, OpenAiChoice, GeminiCandidate, GeminiResponse, Vendor,
  anthropic, openai, gemini,
}

-- The input of the first call of the tool.
unfoldable pub tool_input : List AnthropicBlock → Option String
tool_input [] = none
tool_input (blk ∷ blks) =
    let rest = tool_input blks in
    if blk.kind == "tool_use" && blk.name == "extract_filter" then some blk.input else rest

unfoldable pub joined : List String → String
joined [] = ""
joined (part ∷ parts) = part ++ joined parts

-- `raw` is a response that carries the text of a filter: the input of the tool; the content of the
-- first choice, which is not refused; or the parts of the first candidate, which is complete.
pub data Carries : Vendor → String → String → Type 0 where
  by_tool :
      (decode : String → Result AnthropicResponse) (raw : String) (res : AnthropicResponse)
      (text : String)
      → decode raw ≡ ok res
      → tool_input res.content ≡ some text
      → Carries (anthropic decode) raw text
  by_choice :
      (decode : String → Result (List OpenAiChoice)) (raw : String) (choice : OpenAiChoice)
      (choices : List OpenAiChoice)
      → decode raw ≡ ok (choice ∷ choices)
      → (choice.refusal == "") ≡ true
      → Carries (openai decode) raw choice.content
  by_candidate :
      (decode : String → Result GeminiResponse) (raw : String) (res : GeminiResponse)
      (cand : GeminiCandidate) (cands : List GeminiCandidate)
      → decode raw ≡ ok res
      → res.candidates ≡ cand ∷ cands
      → (cand.finish_reason == "" || cand.finish_reason == "STOP") ≡ true
      → Carries (gemini decode) raw (joined cand.parts)

-- A reply of 2xx with this body, to this request.
pub record IsReply (t : Transport) (request : HttpRequest) (raw : String) : Type 0 where
  pub response : HttpResponse
  pub sent : t.send request ≡ ok response
  pub success : response.status / 100 ≡ 2
  pub read : response.body ≡ ok raw

-- The request that each provider makes of a text on a date, by its URL, header lines and body.
abbrev pub request_of : Vendor → Provider → String → HttpRequest
request_of (anthropic decode) p body = record {
  url = anthropic_url p;
  headers = anthropic_headers p;
  body = body;
}
request_of (openai decode) p body = record {
  url = openai_url p;
  headers = openai_headers p;
  body = body;
}
request_of (gemini decode) p body = record {
  url = gemini_url p;
  headers = gemini_headers p;
  body = body;
}

abbrev pub json_of : Vendor → Provider → String → String → Fields → Json
json_of (anthropic decode) p date text schema = anthropic_body p.model date text schema
json_of (openai decode) p date text schema = openai_body p.model date text schema
json_of (gemini decode) p date text schema = gemini_body date text schema
