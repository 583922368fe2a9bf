-- ===== src/Http/Auth.antt =====
-- The authorizers of http/middleware.go.
use godxfeed.Common.{
  String, Bool, true, false, not, ◌||◌, Option, none, some, List, [], ◌∷◌, if◌then◌else◌, ◌==◌,
  string_eq,
}
use godxfeed.Common.Text.{trim_prefix}
use godxfeed.Http.{Claims, Request, HandlerAdapter, error_text, write_json_response, on_reply}

-- An authorizer that passes gives the request with its context changed; `challenges` tells whether
-- it sets the header WWW-Authenticate before it looks.
pub record Authorizer : Type 0 where
  pub challenges : Bool
  pub authorize : Request → Option Request

-- basicAuthorizerCtxSetEmail, with what getSecretKey reads.
unfoldable pub basic_authorizer : String → Authorizer
basic_authorizer secret = record {
  challenges = true;
  authorize = λ r. elim r.basic_auth [
    | none ↦ none
    | some (email, pwd) ↦
        if email == ""
        then none
        else if not (pwd == secret)
        then none
        else some (record r { ctx_email = some email })
  ];
}

abbrev with_claims : Request → Option Claims → Option Request
with_claims r none = none
with_claims r (some claims) = some (record r { ctx_jwt = some claims })

abbrev first_value : List String → String
first_value [] = ""
first_value (v ∷ vs) = v

-- `secret` is what getSecretKey reads, and `verify` is jwt.ParseWithClaims with that key: the claims
-- of a token without an error and valid.
module _ (secret : String) (verify : String → String → Option Claims) where
  unfoldable pub bearer_authorizer : Authorizer
  unfolding trim_prefix
  bearer_authorizer = record {
    challenges = false;
    authorize = λ r.
        let ts = trim_prefix r.authorization "Bearer " in
        if ts == "" then none else with_claims r (verify secret ts);
  }

  unfoldable pub query_authorizer : Authorizer
  query_authorizer = record {
    challenges = false;
    authorize = λ r.
        let ts = first_value (r.query "token") in
        if ts == "" then none else with_claims r (verify secret ts);
  }

-- atLeastOneAuth
unfoldable pub at_least_one_auth : List Authorizer → HandlerAdapter
unfolding write_json_response
at_least_one_auth [] next r s = (s, write_json_response (error_text "unauthorized") 401)
at_least_one_auth (a ∷ rest) next r s =
    let others = at_least_one_auth rest next r s in
    on_reply (λ x. record x { challenged = a.challenges || x.challenged })
      (elim (a.authorize r) [ some r' ↦ next r' s | none ↦ others ])
