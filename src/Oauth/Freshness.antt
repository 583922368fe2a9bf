-- ===== src/Oauth/Freshness.antt =====
-- A token is handed out again only while it has more than the clock skew left.
use godxfeed.Common.{
  ℕ, ◌+◌, ◌*◌, ◌<◌, ◌≤◌, String, ◌≡◌, refl, false, none, some, List, [], ◌∷◌, ltb, if◌then◌else◌,
  ◌==◌, string_eq, arith,
}
use godxfeed.Common.Outcome.{Error, ok, err}
use godxfeed.Common.Int64.{two_63, is_nonpositive, signed_lt, wrap_mul, wrap_sub}
use godxfeed.Oauth.{
  OauthConfig, TokenProvider, new_token_provider, cached_token, second, clock_skew, RefreshResponse,
  TokenEndpoint, ttl_of, add_duration, request_token, refresh, access_token,
}

-- A response of the token endpoint that was taken.
pub record Issue : Type 0 where
  pub token : String
  pub at_time : ℕ
  pub ttl : ℕ

ttl_of_bound : (n : ℕ) → (0 < ttl_of n) × (ttl_of n < two_63)
unfolding ttl_of is_nonpositive signed_lt wrap_mul
ttl_of_bound n = ground arith

-- A lifetime that the endpoint gives in seconds, and that fits an int64 in nanoseconds, is taken as
-- it is.
pub ttl_of_seconds : (n : ℕ) → 0 < n → n * second < two_63 → ttl_of n ≡ n * second
unfolding ttl_of is_nonpositive signed_lt wrap_mul
ttl_of_seconds n pos small = ground arith

expiry_margin :
    (now t ttl : ℕ)
    → ttl < two_63
    → now < add_duration t (wrap_sub ttl clock_skew)
    → now + clock_skew < t + ttl
unfolding add_duration wrap_sub
expiry_margin now t ttl small h = ground arith

expiry_reached :
    (now t ttl : ℕ)
    → ttl < two_63
    → clock_skew ≤ t
    → now + clock_skew < t + ttl
    → now < add_duration t (wrap_sub ttl clock_skew)
unfolding add_duration wrap_sub
expiry_reached now t ttl small late h = ground arith

-- The life of a provider, with the responses that it took, newest first.
pub data Lifetime : TokenProvider → List Issue → Type 0 where
  created : (cfg : OauthConfig) (p : TokenProvider) → new_token_provider cfg ≡ ok p → Lifetime p []
  renewed :
      (w : TokenEndpoint) (now : ℕ) (p : TokenProvider) (log : List Issue)
      (parsed : RefreshResponse)
      → Lifetime p log
      → request_token w ≡ ok parsed
      → Lifetime (refresh w now p).0 (
          record { token = parsed.access_token; at_time = now; ttl = ttl_of parsed.expires_in }
          ∷ log)
  refused :
      (w : TokenEndpoint) (now : ℕ) (p : TokenProvider) (log : List Issue) (e : Error)
      → Lifetime p log
      → request_token w ≡ err e
      → Lifetime (refresh w now p).0 log

-- The newest response, which a provider with a token holds.
pub record IsBacked (p : TokenProvider) (now : ℕ) (tok : String) (log : List Issue) : Type 0 where
  pub newest : Issue
  pub older : List Issue
  pub is_log : log ≡ newest ∷ older
  pub same : tok ≡ newest.token
  pub margin : now + clock_skew < newest.at_time + newest.ttl

-- Whatever requests succeeded and failed before: a token that comes from the cache is that of the
-- newest response taken, and has more than the clock skew of 30 s left of the lifetime it was given.
pub cached_token_fresh :
    (p : TokenProvider) (log : List Issue) (now : ℕ) (tok : String)
    → Lifetime p log
    → cached_token now p ≡ some tok
    → IsBacked p now tok log
unfolding cached_token refresh new_token_provider
cached_token_fresh p log now tok (created cfg q e) h = absurd (ground (arith, e, h))
cached_token_fresh p log now tok (renewed w t q log' parsed life e) h = record {
  newest = record { token = parsed.access_token; at_time = t; ttl = ttl_of parsed.expires_in };
  older = log';
  is_log = refl;
  same = ground (arith, e, h);
  margin =
      expiry_margin now t (ttl_of parsed.expires_in) (ttl_of_bound parsed.expires_in).1
        (ground (arith, e, h));
}
cached_token_fresh p log now tok (refused w t q log' x life e) h =
    let old = cached_token_fresh q log' now tok life (ground (arith, e, h)) in
    record {
      newest = old.newest;
      older = old.older;
      is_log = old.is_log;
      same = old.same;
      margin = old.margin;
    }

request_token_nonempty :
    (w : TokenEndpoint) (parsed : RefreshResponse)
    → request_token w ≡ ok parsed
    → (parsed.access_token == "") ≡ false
unfolding request_token
request_token_nonempty w parsed e = ground arith

-- After a refresh, the token is handed out again, without a request, exactly as long as more than the
-- clock skew is left of its lifetime.
refresh_then_cached :
    (w : TokenEndpoint) (t now : ℕ) (p : TokenProvider) (parsed : RefreshResponse)
    → clock_skew ≤ t
    → request_token w ≡ ok parsed
    → cached_token now (refresh w t p).0 ≡ (
        if ltb (now + clock_skew) (t + ttl_of parsed.expires_in)
        then some parsed.access_token
        else none)
unfolding cached_token refresh
refresh_then_cached w t now p parsed late e = ground (
  arith,
  e,
  request_token_nonempty w parsed e,
  expiry_margin now t (ttl_of parsed.expires_in) (ttl_of_bound parsed.expires_in).1,
  expiry_reached now t (ttl_of parsed.expires_in) (ttl_of_bound parsed.expires_in).1 late,
)

-- A call of AccessToken that fails leaves the cache as it was.
access_token_failure_keeps_cache :
    (w : TokenEndpoint) (now now' now'' : ℕ) (p : TokenProvider) (e : Error)
    → (access_token w now now' now'' p).1 ≡ err e
    → (access_token w now now' now'' p).0 ≡ p
unfolding access_token refresh
access_token_failure_keeps_cache w now now' now'' p e failed = ground arith
