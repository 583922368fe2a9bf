-- ===== src/NatsAuth/Grants.antt =====
-- What a token that the auth service hands out allows.
use godxfeed.Common.{String, ◌≡◌, Option, none, [], ◌∷◌, arith, string_eq, Option-cases, inl, inr}
use godxfeed.Common.Outcome.{Error, Result, ok, Result-cases}
use godxfeed.NatsAuth.{
  AuthorizationRequest, UserClaims, AuthorizationResponse, Callout, claims_of, auth_handler,
  answered, validate_and_sign, respond, handle,
}

-- A user of the stream: the name is the email of the token, and the only subjects named are those
-- of the stream, for subscribing.
pub record IsStreamUser (c : Callout) (req : AuthorizationRequest) (claims : UserClaims)
    : Type 0 where
  pub asked : c.status req.token ≡ ok 200
  pub key : claims.user_nkey ≡ req.user_nkey
  pub subscribes : claims.sub_allow ≡ "godxfeed.>" ∷ []
  pub publishes : claims.pub_allow ≡ []

auth_handler-IsStreamUser :
    (c : Callout) (req : AuthorizationRequest) (claims : UserClaims)
    → auth_handler c req ≡ ok claims
    → IsStreamUser c req claims
unfolding auth_handler claims_of
auth_handler-IsStreamUser c req claims h = record {
  asked = ground arith;
  key = ground arith;
  subscribes = ground arith;
  publishes = ground arith;
}

module _ (validate : UserClaims → Option Error) (encode : UserClaims → Result String) where
  -- Whatever NATS asks, and whatever the callout answers: a response with a token and no error is for
  -- the key that asked, and its token is the signature of valid claims of a user of the stream, for a
  -- token that the callout accepted with 200.
  pub handle_grants :
      (c : Callout) (rc : AuthorizationRequest) (a : AuthorizationResponse)
      → handle validate encode (auth_handler c) (ok rc) ≡ answered a
      → a.failure ≡ none
      → (claims : UserClaims) × (encode claims ≡ ok a.jwt)
        × (validate claims ≡ none)
        × (a.user_nkey ≡ rc.user_nkey)
        × IsStreamUser c rc claims
  unfolding handle respond validate_and_sign
  handle_grants c rc a h clean = elim (Result-cases (auth_handler c rc)) [
    | inr (e, f) ↦ absurd (ground (arith, f, h, clean))
    | inl (claims, f) ↦ elim (Option-cases (validate claims)) [
      | inr (e, g) ↦ absurd (ground (arith, f, g, h, clean))
      | inl g ↦ elim (Result-cases (encode claims)) [
        | inr (e, i) ↦ absurd (ground (arith, f, g, i, h, clean))
        | inl (t, i) ↦ (
          claims,
          ground (arith, f, g, i, h),
          g,
          ground (arith, f, g, i, h),
          auth_handler-IsStreamUser c rc claims f,
        )
      ]
    ]
  ]
