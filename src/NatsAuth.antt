-- ===== src/NatsAuth.antt =====
-- service/nats_auth_service.go: the service that NATS asks whether a client may connect. The JWT and
-- nkeys libraries, the HTTP client and the decoders are parameters.
pub mod Grants
use godxfeed.Common.{
  ℕ, String, Bool, true, false, not, Option, none, some, List, [], ◌∷◌, eqb, length, if◌then◌else◌,
}
use godxfeed.Common.Outcome.{Error, Result, ok, err, fail, wrap, num, ◌>>=◌, context}
use godxfeed.Common.Text.{split}

-- What the service reads of jwt.AuthorizationRequestClaims.
pub record AuthorizationRequest : Type 0 where
  pub user_nkey : String
  pub server_id : String
  pub token : String

-- What it sets of jwt.UserClaims.
pub record UserClaims : Type 0 where
  pub user_nkey : String
  pub audience : String
  pub name : String
  pub pub_allow : List String
  pub sub_allow : List String

-- What it sets of jwt.AuthorizationResponseClaims.
pub record AuthorizationResponse : Type 0 where
  pub user_nkey : String
  pub audience : String
  pub jwt : String
  pub failure : Option Error

-- `request` and `status` are NewRequest and Do of the callout with a token, `decode` is
-- base64.RawURLEncoding.DecodeString, and `email` is parsed["email"].(string) of the parsed claims.
pub record Callout : Type 0 where
  pub request : Option Error
  pub status : String → Result ℕ
  pub decode : String → Result String
  pub email : String → Result (Option String)

-- The second of the three parts of a token.
abbrev payload_of : List String → Option String
payload_of (h ∷ (p ∷ (s ∷ []))) = some p
payload_of _ = none

-- The handler that SetupNatsWithAuthCallout passes, once the callout has answered 200.
unfoldable pub claims_of : Callout → AuthorizationRequest → Result UserClaims
unfolding split
claims_of c req = elim (payload_of (split 46 req.token)) [
  | none ↦ err (fail "invalid token format" [])
  | some part ↦
      context (wrap "could not decode token payload: %w" []) (c.decode part) >>= λ payload.
      context (wrap "could not parse token claims: %w" []) (c.email payload) >>= λ found.
      elim found [
        | none ↦ err (fail "email not found in token claims" [])
        | some email ↦ ok (record {
          user_nkey = req.user_nkey;
          audience = "godxfeed";
          name = email;
          pub_allow = [];
          sub_allow = "godxfeed.>" ∷ [];
        })
      ]
]

unfoldable pub auth_handler : Callout → AuthorizationRequest → Result UserClaims
unfolding claims_of
auth_handler c req = elim c.request [
  | some e ↦ err (wrap "could not create auth callout request: %w" [] e)
  | none ↦
      context (wrap "could not make auth callout request: %w" []) (c.status req.token) >>= λ status.
      (if not (eqb status 200)
        then err (fail "auth callout request failed with status code %d" (num status ∷ []))
        else claims_of c req)
]

-- The service's answer, or its crash.
pub data Answer : Type 0 where
  crashed : Answer
  answered : AuthorizationResponse → Answer

-- `validate` gives the errors of claims.Validate, joined, and `encode` signs with the issuer's key.
module _ (validate : UserClaims → Option Error) (encode : UserClaims → Result String) where
  unfoldable pub validate_and_sign : UserClaims → Result String
  validate_and_sign claims = elim (validate claims) [ some e ↦ err e | none ↦ encode claims ]

  -- Respond, up to the encoding of the response.
  unfoldable pub respond : String → String → Result String → AuthorizationResponse
  respond user_nkey server_id (ok token) = record {
    user_nkey = user_nkey;
    audience = server_id;
    jwt = token;
    failure = none;
  }
  respond user_nkey server_id (err e) = record {
    user_nkey = user_nkey;
    audience = server_id;
    jwt = "";
    failure = some e;
  }

  -- Handle. After a request that does not decode it goes on with claims that are nil.
  unfoldable pub handle :
      (AuthorizationRequest → Result UserClaims) → Result AuthorizationRequest → Answer
  unfolding respond validate_and_sign
  handle handler (err e) = crashed
  handle handler (ok rc) =
      answered (respond rc.user_nkey rc.server_id (handler rc >>= validate_and_sign))

-- The calls of SetupNatsWithAuthCallout: nats.Connect twice, nkeys.FromSeed and micro.AddService.
-- The arguments of SetupNatsWithAuthCallout.
pub record NatsSettings : Type 0 where
  pub url : String
  pub auth_user : String
  pub auth_password : String
  pub godxfeed_user : String
  pub godxfeed_password : String
  pub nkey_seed : String
  pub callout_endpoint : String

pub record NatsCalls : Type 0 where
  pub connect_auth : Option Error
  pub connect_app : Option Error
  pub from_seed : Option Error
  pub add_service : Option Error

-- Once it returns nil, the handler above answers NATS.
unfoldable pub setup_nats_with_auth_callout : NatsCalls → Option Error
setup_nats_with_auth_callout c = elim c.connect_auth [
  | some e ↦ some (wrap "could not connect to nats server (auth): %w" [] e)
  | none ↦ elim c.connect_app [
    | some e ↦ some (wrap "could not connect to nats server (app): %w" [] e)
    | none ↦ elim c.from_seed [
      | some e ↦ some (wrap "could not setup nats server: %w" [] e)
      | none ↦ elim c.add_service [
        | some e ↦ some (wrap "could not add service: %w" [] e)
        | none ↦ none
      ]
    ]
  ]
]
