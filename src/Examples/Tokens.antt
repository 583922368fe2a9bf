-- ===== src/Examples/Tokens.antt =====
-- Witnesses of the theorems on tokens and delays.
use godxfeed.Common.{ℕ, ◌+◌, ◌*◌, ◌≤◌, arith, refl, none, List, [], ◌∷◌}
use godxfeed.Common.Outcome.{ok}
use godxfeed.Oauth.{
  OauthConfig, TokenProvider, TokenEndpoint, RefreshResponse, new_token_provider, cached_token,
  ttl_of, request_token, refresh, add_duration,
}
use godxfeed.Common.Int64.{is_nonpositive, wrap_sub, wrap_mul, signed_lt}
use godxfeed.Oauth.Freshness.{Issue, created, renewed, refused, IsBacked, cached_token_fresh}
use godxfeed.Backoff.{new_backoff, next, full_delay, next_bounds}

abbrev config : OauthConfig
config = record { token_url = "https://api/oauth/token"; client_secret = "s"; refresh_token = "r" }

abbrev fresh_provider : TokenProvider
fresh_provider = record { cfg = config; token = ""; expire_at = 0 }

abbrev grant : RefreshResponse
grant = record { access_token = "abc"; token_type = "Bearer"; expires_in = 900 }

abbrev working : TokenEndpoint
working = record { build = none; respond = ok 200; body = ok "{}"; parse = λ text. ok grant }

abbrev broken : TokenEndpoint
broken = record working { respond = ok 503 }

abbrev issued_at : ℕ
issued_at = 1_700_000_000_000_000_000

abbrev log : List Issue
log = record { token = "abc"; at_time = issued_at; ttl = ttl_of 900 } ∷ []

abbrev renewed_provider : TokenProvider
renewed_provider = (refresh working issued_at fresh_provider).0

cached_token_fresh_example :
    IsBacked
      (refresh broken 1_700_000_001_000_000_000 renewed_provider).0
      1_700_000_002_000_000_000
      "abc"
      log
unfolding cached_token refresh request_token ttl_of add_duration is_nonpositive wrap_sub wrap_mul
    signed_lt new_token_provider
cached_token_fresh_example =
    cached_token_fresh (refresh broken 1_700_000_001_000_000_000 renewed_provider).0 log
      1_700_000_002_000_000_000 "abc"
      (refused broken 1_700_000_001_000_000_000 renewed_provider log _
        (renewed working issued_at fresh_provider [] grant (created config fresh_provider refl)
          refl)
        refl)
      refl

next_bounds_example :
    let b = record new_backoff { attempt = 2 } in
    (full_delay 3 b ≤ 2 * (next 12345 b).1 + 1)
    × ((next 12345 b).1 ≤ full_delay 3 b)
    × (1_000_000_000 ≤ full_delay 3 b)
    × (full_delay 3 b ≤ 60_000_000_000)
next_bounds_example = next_bounds 12345 2 (omega arith)
