-- ===== src/StreamerToken.antt =====
-- service/streamer_token.go: the token for dxLink, from tastytrade.
use Prim.Native.String
use godxfeed.Common.{
  ℕ, String, not, Option, none, some, [], ◌∷◌, eqb, if◌then◌else◌, ◌==◌, string_eq,
}
use Prim.Native.Char.{code}
use godxfeed.Common.Text.{trim_right}
use godxfeed.Common.Outcome.{Error, Result, ok, err, fail, wrap, str, num, ◌>>=◌, context}
use godxfeed.Service.Connect.{TokenData}

-- What NewRequestWithContext, Do, ReadAll and Unmarshal return.
pub record QuoteTokens : Type 0 where
  pub build : String → Option Error
  pub respond : String → String → Result ℕ
  pub body : Result String
  pub parse : String → Result TokenData

-- strings.TrimRight(baseURL, "/") + "/api-quote-tokens"
unfoldable pub quote_tokens_url : String → String
quote_tokens_url base = String.◌++◌ (trim_right (λ c. eqb (code c) 47) base) "/api-quote-tokens"

-- fetchStreamerToken, given what the token provider returned.
unfoldable pub fetch_streamer_token : QuoteTokens → String → Result String → Result TokenData
unfolding quote_tokens_url
fetch_streamer_token w base access =
    context (wrap "streamer-token: get access token: %w" []) access >>= λ token.
    elim (w.build (quote_tokens_url base)) [
      | some e ↦ err (wrap "streamer-token: build request: %w" [] e)
      | none ↦
          context (wrap "streamer-token: do request: %w" [])
            (w.respond (quote_tokens_url base) (String.◌++◌ "Bearer " token))
          >>= λ status. context (wrap "streamer-token: read body: %w" []) w.body >>= λ text.
              (if not (eqb status 200)
                then err
                    (fail "streamer-token: tastytrade returned %d: %s" (num status ∷ str text ∷ []))
                else context (wrap "streamer-token: parse body: %w" []) (w.parse text)
                  >>= λ data_of.
                      (if data_of.token == ""
                        then err
                            (fail "streamer-token: empty token in response: %s" (str text ∷ []))
                        else ok data_of))
    ]
