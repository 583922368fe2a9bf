-- ===== src/Oauth.antt =====
-- service/oauth.go: the access token and its cache. Times are nanoseconds; a duration is an int64.
pub mod Freshness
use godxfeed.Common.{
  ℕ, ◌+◌, ◌-◌, String, Bool, true, false, not, Option, none, some, List, [], ◌∷◌, ltb, eqb,
  if◌then◌else◌, ◌==◌, string_eq,
}
use godxfeed.Common.Outcome.{Error, Result, ok, err, fail, wrap, str, num, ◌>>=◌, context}
use godxfeed.Common.Int64.{two_63, two_64, is_nonpositive, wrap_mul, wrap_sub}

pub record OauthConfig : Type 0 where
  pub token_url : String
  pub client_secret : String
  pub refresh_token : String

pub record TokenProvider : Type 0 where
  pub cfg : OauthConfig
  pub token : String
  pub expire_at : ℕ

-- newTokenProvider, with the client and the clock that it defaults to.
unfoldable pub new_token_provider : OauthConfig → Result TokenProvider
new_token_provider cfg =
    if cfg.token_url == ""
    then err (fail "oauth: TokenURL is required" [])
    else if cfg.client_secret == ""
    then err (fail "oauth: ClientSecret is required" [])
    else if cfg.refresh_token == ""
    then err (fail "oauth: RefreshToken is required" [])
    else ok (record { cfg = cfg; token = ""; expire_at = 0 })

unfoldable pub cached_token : ℕ → TokenProvider → Option String
cached_token now p =
    if p.token == "" then none else if not (ltb now p.expire_at) then none else some p.token

abbrev pub second : ℕ
second = 1_000_000_000

abbrev pub clock_skew : ℕ
clock_skew = 30_000_000_000

-- ExpiresIn is an int64.
pub record RefreshResponse : Type 0 where
  pub access_token : String
  pub token_type : String
  pub expires_in : ℕ

-- The token endpoint: what Marshal with NewRequest, Do, ReadAll and Unmarshal return.
pub record TokenEndpoint : Type 0 where
  pub build : Option Error
  pub respond : Result ℕ
  pub body : Result String
  pub parse : String → Result RefreshResponse

-- The lifetime of a token, in nanoseconds.
unfoldable pub ttl_of : ℕ → ℕ
unfolding is_nonpositive wrap_mul
ttl_of expires_in =
    let ttl = wrap_mul expires_in second in if is_nonpositive ttl then 900_000_000_000 else ttl

-- now + d, for a d that is a pattern of an int64; before 1970 is not modelled.
unfoldable pub add_duration : ℕ → ℕ → ℕ
add_duration now d = if ltb d two_63 then now + d else now - (two_64 - d)

-- refresh up to its assignments: what it asked for and got.
unfoldable pub request_token : TokenEndpoint → Result RefreshResponse
request_token w = elim w.build [
  | some e ↦ err (wrap "oauth: build request: %w" [] e)
  | none ↦ context (wrap "oauth: token endpoint: %w" []) w.respond >>= λ status.
      context (wrap "oauth: read response: %w" []) w.body >>= λ rbody.
      (if not (eqb status 200)
        then err (fail "oauth: token endpoint returned %d: %s" (num status ∷ str rbody ∷ []))
        else context (wrap "oauth: parse response: %w" []) (w.parse rbody) >>= λ parsed.
            (if parsed.access_token == ""
              then err (fail "oauth: empty access_token in response: %s" (str rbody ∷ []))
              else ok parsed))
]

-- refresh, whose clock is read when the response is in.
unfoldable pub refresh : TokenEndpoint → ℕ → TokenProvider → TokenProvider × Result String
unfolding request_token ttl_of add_duration wrap_sub
refresh w now p = elim (request_token w) [
  | err e ↦ (p, err e)
  | ok parsed ↦ (
    record p {
      token = parsed.access_token;
      expire_at = add_duration now (wrap_sub (ttl_of parsed.expires_in) clock_skew);
    },
    ok parsed.access_token,
  )
]

-- AccessToken by a caller that leads its flight: at `now` it looks, at `now'` it looks again.
unfoldable pub access_token :
    TokenEndpoint → ℕ → ℕ → ℕ → TokenProvider → TokenProvider × Result String
unfolding cached_token refresh
access_token w now now' now'' p = elim (cached_token now p) [
  | some tok ↦ (p, ok tok)
  | none ↦ elim (cached_token now' p) [ some tok ↦ (p, ok tok) | none ↦ refresh w now'' p ]
]
