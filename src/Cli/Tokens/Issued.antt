-- ===== src/Cli/Tokens/Issued.antt =====
-- new_bearer_token against the server of http/.
use Prim.Native.String.{◌++◌}
use godxfeed.Common.{
  ◌+◌, String, ◌≡◌, refl, ap, ◌∙◌, ◌⊎◌, true, false, none, some, [], ◌∷◌, Bool-cases, inl, inr,
  ◌==◌, string_eq,
}
use godxfeed.Common.Outcome.{Error, Result, ok, err, ◌>>=◌, Result-cases}
use godxfeed.Common.Text.Prefix.{trim_prefix-append}
use godxfeed.EnvFile.Given.{IsGiven-full, require_flags-IsGiven}
use godxfeed.Common.Floats.{Floats}
use godxfeed.Cli.{Context}
use godxfeed.Cli.Tokens.Kept.{token_line, keep_token_sets}
use godxfeed.Cli.Tokens.{Disk, Issuer, ask_token, keep_token, new_bearer_token}
use godxfeed.EnvFile.{require_flags}
use godxfeed.EnvFile.Lines.{IsLine}
use godxfeed.Http.{
  Request, Body, Out, replied, panicked, token, error_text, error_of, Claims, adapt_handler,
  write_json_response, write_internal_error,
}
use godxfeed.Http.Auth.{at_least_one_auth, basic_authorizer, bearer_authorizer}
use godxfeed.Http.Handlers.{fortnight, create_bearer_token, handle_issue_token}
use godxfeed.Http.Routes.{Deps, issues_token}
use godxfeed.Service.{Service}

-- The request that SetBasicAuth makes, as the server reads it.
abbrev pub basic_request : String → String → Request
basic_request email secret = record {
  authorization = "";
  basic_auth = some (email, secret);
  query = λ key. [];
  body = "";
  limit = none;
  ctx_email = none;
  ctx_jwt = none;
}

abbrev body_of : Out → Result Body
body_of (replied x) = ok x.body
body_of (panicked e) = err e

module _ {f : Floats} (d : Deps f) (s : Service) (encode : Body → String)
    (parse : String → Result String) where
  -- The server at the endpoint of the command.
  abbrev pub http_issuer : Issuer
  http_issuer = record {
    build = λ url. none;
    post = λ url email secret.
        body_of (issues_token d (basic_request email secret) s).1 >>= λ body. ok (encode body);
    parse = parse;
  }

  -- Unmarshal of what Encode wrote: a field that is not there stays empty.
  pub record IsJson : Type 0 where
    pub token_field : (t : String) → parse (encode (token t)) ≡ ok t
    pub no_token_text : (text : String) → parse (encode (error_text text)) ≡ ok ""
    pub no_token_error : (e : Error) → parse (encode (error_of e)) ≡ ok ""

  -- What jwt.ParseWithClaims says of a token that SignedString has made, before it expires; and that a
  -- token is a text of one line that is not empty.
  pub record IsJwt (c : Claims) : Type 0 where
    pub verified : (t : String) → d.sign c ≡ ok t → d.verify d.secret t ≡ some c
    pub full : (t : String) → d.sign c ≡ ok t → (t == "") ≡ false
    pub one_line : (t : String) → d.sign c ≡ ok t → IsLine t

  abbrev pub claims_for : String → Claims
  claims_for email = record { email = email; expires_at = d.now + fortnight d.sign d.now }

  -- The reply to the request of the command.
  abbrev reply_body : String → String → Result Body
  reply_body email secret = body_of (issues_token d (basic_request email secret) s).1

  reply_cases :
      (email secret : String)
      → (email == "") ≡ false
      → (((secret == d.secret) ≡ true)
          × ((t : String) × (d.sign (claims_for email) ≡ ok t)
              × (reply_body email secret ≡ ok (token t))))
        ⊎ ((((secret == d.secret) ≡ false) ⊎ ((e : Error) × (d.sign (claims_for email) ≡ err e)))
            × ((b : Body) × (reply_body email secret ≡ ok b) × (IsJson → parse (encode b) ≡ ok "")))
  unfolding issues_token at_least_one_auth basic_authorizer adapt_handler handle_issue_token
      create_bearer_token write_json_response write_internal_error
  reply_cases email secret named = elim (Bool-cases (secret == d.secret)) [
    | inr wrong ↦ inr (
      inl wrong,
      (error_text "unauthorized", rw (named, wrong) refl, λ j. j.no_token_text "unauthorized"),
    )
    | inl right ↦ elim (Result-cases (d.sign (claims_for email))) [
      | inl (t, signed) ↦
          inl (right, (t, signed, rw (named, right, signed, handle_issue_token) refl))
      | inr (e, failed) ↦ inr (
        inr (e, failed),
        (error_of e, rw (named, right, failed, handle_issue_token) refl, λ j. j.no_token_error e),
      )
    ]
  ]

  -- The request with a token in its header, as curl sends it.
  abbrev pub bearer_request : String → Request → Request
  bearer_request t r = record r { authorization = "Bearer " ++ t }

  bearer_accepts :
      (t : String) (c : Claims) (r : Request)
      → (t == "") ≡ false
      → d.verify d.secret t ≡ some c
      → (bearer_authorizer d.secret d.verify).authorize (bearer_request t r)
        ≡ some (record (bearer_request t r) { ctx_jwt = some c })
  unfolding bearer_authorizer
  bearer_accepts t c r full known = rw (trim_prefix-append "Bearer " t, full, known) refl

  new_bearer_token_eq :
      (ctx : Context) (disk : Disk) (body : Body) (t : String)
      → require_flags ctx.string ("godxfeed-endpoint" ∷ "email" ∷ "server-secret" ∷ []) ≡ none
      → reply_body (ctx.string "email") (ctx.string "server-secret") ≡ ok body
      → parse (encode body) ≡ ok t
      → new_bearer_token http_issuer ctx disk ≡ keep_token ctx disk (encode body) t
  unfolding new_bearer_token ask_token
  new_bearer_token_eq ctx disk body t given replies read =
      rw (given, new_bearer_token, replies, ask_token, read) refl

  -- With its three flags given and an env file that can be read and written, new_bearer_token against
  -- the server always ends without an error. If the server has the secret and signs a token, the file
  -- then sets AUTH_TOKEN to it, and the server accepts a request with that token, as one of the email
  -- that was given. Otherwise, though the server has refused or failed, the file sets AUTH_TOKEN to
  -- nothing, whatever it set it to before.
  pub new_bearer_token_overwrites :
      (ctx : Context) (disk : Disk)
      → IsJson
      → IsJwt (claims_for (ctx.string "email"))
      → require_flags ctx.string ("godxfeed-endpoint" ∷ "email" ∷ "server-secret" ∷ []) ≡ none
      → (ctx.string "env-file" == "") ≡ false
      → disk.unreadable (ctx.string "env-file") ≡ none
      → disk.unwritable (ctx.string "env-file") ≡ none
      → ((new_bearer_token http_issuer ctx disk).1 ≡ ok "")
        × ((((ctx.string "server-secret" == d.secret) ≡ true)
              × ((t : String) × (d.sign (claims_for (ctx.string "email")) ≡ ok t)
                  × (token_line (new_bearer_token http_issuer ctx disk).0 (ctx.string "env-file")
                      ≡ some ("AUTH_TOKEN=" ++ t))
                  × ((r : Request)
                      → (bearer_authorizer d.secret d.verify).authorize (bearer_request t r)
                        ≡ some (record (bearer_request t r) {
                          ctx_jwt = some (claims_for (ctx.string "email"));
                        }))))
            ⊎ ((((ctx.string "server-secret" == d.secret) ≡ false)
                  ⊎ ((e : Error) × (d.sign (claims_for (ctx.string "email")) ≡ err e)))
                × (token_line (new_bearer_token http_issuer ctx disk).0 (ctx.string "env-file")
                    ≡ some "AUTH_TOKEN=")))
  new_bearer_token_overwrites ctx disk json jwt given named r w =
      let email = ctx.string "email" in
      let named_email =
        IsGiven-full ctx.string "email"
          (require_flags-IsGiven ctx.string ("godxfeed-endpoint" ∷ "email" ∷ "server-secret" ∷ [])
            given).1.0 in
      elim (reply_cases email (ctx.string "server-secret") named_email) [
        | inl (right, (t, signed, replies)) ↦
            let same =
              new_bearer_token_eq ctx disk (token t) t given replies (json.token_field t) in
            let (quiet, set) =
              keep_token_sets ctx disk (encode (token t)) t named r w (jwt.one_line t signed) in
            (
              ap (λ x. x.1) same ∙ quiet,
              inl (
                right,
                (
                  t,
                  signed,
                  ap (λ x. token_line x.0 (ctx.string "env-file")) same ∙ set,
                  λ q.
                      bearer_accepts t (claims_for email) q (jwt.full t signed)
                        (jwt.verified t signed),
                ),
              ),
            )
        | inr (why, (body, replies, empty)) ↦
            let same = new_bearer_token_eq ctx disk body "" given replies (empty json) in
            let (quiet, set) = keep_token_sets ctx disk (encode body) "" named r w tt in
            (
              ap (λ x. x.1) same ∙ quiet,
              inr (why, ap (λ x. token_line x.0 (ctx.string "env-file")) same ∙ set),
            )
      ]
