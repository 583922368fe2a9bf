-- ===== src/Exchange.antt =====
-- What the three providers of service/llm (anthropic.go, openai.go, gemini.go) have in common: their
-- settings, and one exchange over HTTP. The HTTP client and encoding/json are parameters. A body is a
-- string of bytes, a character for each.
use Prim.Native.String.{◌++◌}
use godxfeed.Common.{
  ℕ, zero, suc, ◌/◌, leb, String, not, Option, none, some, List, [], ◌∷◌, eqb, if◌then◌else◌, ◌==◌,
  string_eq,
}
use godxfeed.Common.Outcome.{Error, Result, ok, err, fail, wrap, str, num, ◌>>=◌, context}
use godxfeed.Gemini.{Json, Fields}

-- What a provider is set up with; `version` is for anthropic.go alone.
pub record Provider : Type 0 where
  pub api_key : String
  pub model : String
  pub base_url : String
  pub version : String

-- NewAnthropicProvider, NewOpenAIProvider and NewGeminiProvider.
unfoldable pub new_anthropic_provider : String → String → Provider
new_anthropic_provider api_key model = record {
  api_key = api_key;
  model = model;
  base_url = "https://api.anthropic.com";
  version = "2023-06-01";
}

unfoldable pub new_openai_provider : String → String → Provider
new_openai_provider api_key model = record {
  api_key = api_key;
  model = model;
  base_url = "https://api.openai.com";
  version = "";
}

unfoldable pub new_gemini_provider : String → String → Provider
new_gemini_provider api_key model = record {
  api_key = api_key;
  model = model;
  base_url = "https://generativelanguage.googleapis.com";
  version = "";
}

pub record HttpRequest : Type 0 where
  pub url : String
  pub headers : List (String × String)
  pub body : String

pub record HttpResponse : Type 0 where
  pub status : ℕ
  pub body : Result String

-- `schema` and `marshal` are json.Unmarshal of the shared schema and json.Marshal of the request,
-- `build` is http.NewRequestWithContext with a URL, and `send` is Do.
pub record Transport : Type 0 where
  pub schema : Result Fields
  pub marshal : Json → Result String
  pub build : String → Option Error
  pub send : HttpRequest → Result HttpResponse

-- if err != nil { return …, fmt.Errorf("…: %w", err) } on a call that returns only an error
abbrev pub checked {ℓ} : {A : Type ℓ} → String → Option Error → Result A → Result A
checked format none next = next
checked format (some e) next = err (wrap format [] e)

byte_length : String → ℕ
byte_length String.[] = 0
byte_length (String.◌∷◌ c s) = suc (byte_length s)

first_bytes : ℕ → String → String
first_bytes zero s = ""
first_bytes (suc n) String.[] = ""
first_bytes (suc n) (String.◌∷◌ c s) = String.◌∷◌ c (first_bytes n s)

unfoldable pub truncate : String → ℕ → String
unfolding byte_length first_bytes
truncate s n = if leb (byte_length s) n then s else first_bytes n s ++ "…"

-- What the three Extract functions have in common, from json.Marshal to the body of a response with a
-- status of 2xx. `name` begins their messages.
unfoldable pub exchange :
    String → Transport → String → List (String × String) → Json → Result String
unfolding truncate
exchange name t url headers json =
    context (wrap (name ++ ": marshal request: %w") []) (t.marshal json) >>= λ body.
    checked (name ++ ": build request: %w") (t.build url) (
      context (wrap (name ++ ": do request: %w") [])
        (t.send (record { url = url; headers = headers; body = body }))
      >>= λ res. context (wrap (name ++ ": read response: %w") []) res.body >>= λ raw.
          (if not (eqb (res.status / 100) 2)
            then err
                (fail (name ++ ": status %d: %s") (num res.status ∷ str (truncate raw 512) ∷ []))
            else ok raw))

-- The guards that each Extract begins with.
unfoldable pub guarded {ℓ} : {A : Type ℓ} → String → Provider → Result A → Result A
guarded name p next =
    if p.api_key == ""
    then err (fail (name ++ ": APIKey is required") [])
    else if p.model == ""
    then err (fail (name ++ ": Model is required") [])
    else next

abbrev pub or_default : String → String → String
or_default v default = if v == "" then default else v

unfoldable pub anthropic_url : Provider → String
anthropic_url p = or_default p.base_url "https://api.anthropic.com" ++ "/v1/messages"

unfoldable pub openai_url : Provider → String
openai_url p = or_default p.base_url "https://api.openai.com" ++ "/v1/chat/completions"

unfoldable pub gemini_url : Provider → String
gemini_url p =
    ((or_default p.base_url "https://generativelanguage.googleapis.com" ++ "/v1beta/models/")
      ++ p.model)
    ++ ":generateContent"

unfoldable pub anthropic_headers : Provider → List (String × String)
anthropic_headers p =
    ("content-type", "application/json")
    ∷ ("x-api-key", p.api_key)
    ∷ ("anthropic-version", or_default p.version "2023-06-01")
    ∷ []

unfoldable pub openai_headers : Provider → List (String × String)
openai_headers p =
    ("content-type", "application/json") ∷ ("authorization", "Bearer " ++ p.api_key) ∷ []

unfoldable pub gemini_headers : Provider → List (String × String)
gemini_headers p = ("content-type", "application/json") ∷ ("x-goog-api-key", p.api_key) ∷ []
