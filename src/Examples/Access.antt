-- ===== src/Examples/Access.antt =====
-- Witnesses of the theorems on the auth service and on the env file.
use Prim.Native.String.{◌++◌}
use Prim.Native.Char.{code}
use mathlib.Core.Path.{subst}
use godxfeed.Common.{
  Bool, true, false, [], ◌∷◌, arith, ◌⊎◌, eqb, if◌then◌else◌, ◌==◌, string_eq, String, ◌≡◌, refl,
  Option, none, some,
}
use godxfeed.Common.Outcome.{Error, Result, ok, err, opaque}
use godxfeed.Common.Text.{split, trim_space}
use godxfeed.Cli.{Context}
use godxfeed.Cli.Tokens.{Disk, new_bearer_token}
use godxfeed.Cli.Tokens.Kept.{token_line}
use godxfeed.Cli.Tokens.Issued.{IsJson, IsJwt, http_issuer, new_bearer_token_overwrites}
use godxfeed.Http.{Claims, Request, Body, token}
use godxfeed.Http.Auth.{bearer_authorizer}
use godxfeed.Http.Routes.{Deps}
use godxfeed.Examples.Http.{deps}
use godxfeed.Examples.Resolver.{small}
use godxfeed.Examples.Service.{dropped}
use godxfeed.NatsAuth.{
  AuthorizationRequest, UserClaims, AuthorizationResponse, Callout, auth_handler, handle,
}
use godxfeed.NatsAuth.Grants.{IsStreamUser, handle_grants}
use godxfeed.EnvFile.{upsert_env, require_flags}
use godxfeed.EnvFile.Lines.{IsLine, setting, upsert_env_sets}

abbrev browser : AuthorizationRequest
browser = record { user_nkey = "UABC"; server_id = "NSRV"; token = "h.p.s" }

abbrev callout : Callout
callout = record {
  request = none;
  status = λ token. ok 200;
  decode = λ part. ok "{}";
  email = λ payload. ok (some "me@example.com");
}

abbrev granted : AuthorizationResponse
granted = record { user_nkey = "UABC"; audience = "NSRV"; jwt = "signed"; failure = none }

handle_grants_example :
    (claims : UserClaims) × (◌≡◌ {A = Result String} (ok "signed") (ok "signed"))
    × (◌≡◌ {A = Option Error} none none)
    × (◌≡◌ {A = String} "UABC" "UABC")
    × IsStreamUser callout browser claims
unfolding handle auth_handler
handle_grants_example =
    handle_grants (λ claims. none) (λ claims. ok "signed") callout browser granted refl refl

abbrev env_file : String
env_file = "NATS_URL=nats://localhost\nAUTH_TOKEN=old\nCORS_METHODS=GET"

upsert_env_sets_example :
    (setting ("AUTH_TOKEN" ++ "=") (split 10 (upsert_env "AUTH_TOKEN" "abc" env_file))
      ≡ some (("AUTH_TOKEN" ++ "=") ++ "abc"))
    × (upsert_env "AUTH_TOKEN" "def" (upsert_env "AUTH_TOKEN" "abc" env_file)
        ≡ upsert_env "AUTH_TOKEN" "def" env_file)
upsert_env_sets_example =
    upsert_env_sets "AUTH_TOKEN" "abc" "def" env_file
      (refl, (refl, (refl, (refl, (refl, (refl, (refl, (refl, (refl, (refl, tt))))))))))
      (refl, (refl, (refl, tt)))

-- A server whose library signs every token the same way.
abbrev me : Claims
me = record { email = "me@example.com"; expires_at = 1_209_600_000_000_001 }

abbrev issuing : Deps small
issuing = record deps { verify = λ secret t. some me }

-- JSON for replies with a token and without; an empty text is not JSON.
abbrev encode : Body → String
encode (token t) = String.◌∷◌ "T" t
encode body = "{}"

abbrev parse : String → Result String
parse String.[] = err (opaque 1)
parse (String.◌∷◌ c s) = ok (if eqb (code c) 84 then s else "")

parse-IsJson : IsJson issuing dropped encode parse
parse-IsJson = record {
  token_field = λ t. refl;
  no_token_text = λ text. refl;
  no_token_error = λ e. refl;
}

me-IsJwt : IsJwt issuing dropped encode parse me
me-IsJwt = record {
  verified = λ t h. refl;
  full = λ t h. subst (λ x. (x == "") ≡ false) (is_jwt t h) refl;
  one_line = λ t h. subst IsLine (is_jwt t h) jwt_line;
}
  where
    jwt_line : IsLine "jwt"
    jwt_line = (refl, (refl, (refl, tt)))

    is_jwt : (t : String) → issuing.sign me ≡ ok t → "jwt" ≡ t
    is_jwt t h = ground (arith, h)

-- The flags of the command, with a wrong secret.
abbrev flags : Context
flags = record {
  string = λ name.
      if name == "email" then "me@example.com" else if name == "env-file" then ".env" else "guess";
  bool = λ name. false;
  int = λ name. 0;
  string_slice = λ name. [];
}

abbrev disk : Disk
disk = record {
  files = (".env", env_file) ∷ [];
  unreadable = λ path. none;
  unwritable = λ path. none;
}

new_bearer_token_overwrites_example :
    ((new_bearer_token (http_issuer issuing dropped encode parse) flags disk).1 ≡ ok "")
    × (((◌≡◌ {A = Bool} false true)
          × ((t : String) × (◌≡◌ {A = Result String} (ok "jwt") (ok t))
              × (token_line
                    (new_bearer_token (http_issuer issuing dropped encode parse) flags disk).0
                    ".env"
                  ≡ some ("AUTH_TOKEN=" ++ t))
              × ((r : Request)
                  → (bearer_authorizer "secret" (λ secret t. some me)).authorize
                      (record r { authorization = "Bearer " ++ t })
                    ≡ some (record r { authorization = "Bearer " ++ t; ctx_jwt = some me }))))
        ⊎ (((◌≡◌ {A = Bool} false false)
              ⊎ ((e : Error) × (◌≡◌ {A = Result String} (ok "jwt") (err e))))
            × (token_line
                  (new_bearer_token (http_issuer issuing dropped encode parse) flags disk).0
                  ".env"
                ≡ some "AUTH_TOKEN=")))
unfolding require_flags trim_space
new_bearer_token_overwrites_example =
    new_bearer_token_overwrites issuing dropped encode parse flags disk parse-IsJson me-IsJwt refl
      refl refl refl
