-- ===== src/Http/Gate.antt =====
-- What a request without a valid token can do.
use godxfeed.Common.{
  ℕ, String, ◌≡◌, ◌⊎◌, inl, inr, refl, ap, ◌∙◌, Bool, true, false, ◌||◌, Option, none, some, [],
  ◌∷◌, All, arith, ◌==◌, string_eq,
}
use godxfeed.Common.Text.{Unicode}
use godxfeed.Common.Floats.{Floats}
use godxfeed.Service.{Service}
use godxfeed.Http.{
  Request, Reply, replied, Handler, HandlerAdapter, adapt_handler, api_mode, api_mode_serve,
  wrapped, make_graceful, set_max_bytes_reader, set_content_type, write_json_response, error_text,
  on_reply, recovered,
}
use godxfeed.Http.Auth.{Authorizer, bearer_authorizer, basic_authorizer, at_least_one_auth}
use godxfeed.Http.Handlers.{handle_issue_token}
use godxfeed.Http.Routes.{Deps, routes, protected, issues_token, max_bytes}

-- What is documented of handlers.CORS: from the request alone it decides whether it answers by
-- itself or serves the next handler.
pub record IsCors (cors : HandlerAdapter) : Type 0 where
  pub decides :
      (r : Request) (s : Service)
      → ((next : Handler) → cors next r s ≡ next r s)
        ⊎ ((reply : Reply) × ((next : Handler) → cors next r s ≡ (s, replied reply)))

-- The service is as it was, and the reply is the status 401, or what CORS answers whatever the
-- handler is.
abbrev pub IsRefused : HandlerAdapter → Handler → Request → Service → Type 0
IsRefused cors h r s =
    (reply : Reply) × (h r s ≡ (s, replied reply))
    × ((reply.status ≡ 401) ⊎ ((next : Handler) → cors next r s ≡ (s, replied reply)))

-- The pages that anyone may see.
unfoldable pub is_public : String → Bool
is_public p = p == "GET /static/" || p == "GET /plots" || p == "GET /admin" || p == "GET /"

auth_refuses :
    (a : Authorizer) (h : Handler) (r : Request) (s : Service)
    → a.authorize r ≡ none
    → at_least_one_auth (a ∷ []) h r s ≡ (
      s,
      replied (record {
        status = 401;
        content_type = "";
        challenged = a.challenges || false;
        body = error_text "unauthorized";
      }),
    )
unfolding at_least_one_auth write_json_response
auth_refuses a h r s e = rw (e, at_least_one_auth) refl

module _ {f : Floats} (d : Deps f) (cors : IsCors d.cors) where
  -- Neither the basic credentials nor the bearer token of a request are accepted.
  pub record IsStranger (r : Request) : Type 0 where
    pub no_bearer : (bearer_authorizer d.secret d.verify).authorize r ≡ none
    pub no_basic : (basic_authorizer d.secret).authorize r ≡ none

  bearer_with_limit :
      (r : Request) (limit : Option ℕ)
      → (bearer_authorizer d.secret d.verify).authorize r ≡ none
      → (bearer_authorizer d.secret d.verify).authorize (record r { limit = limit }) ≡ none
  unfolding bearer_authorizer
  bearer_with_limit r limit h = ground arith

  unauthorized : Reply
  unauthorized = record {
    status = 401;
    content_type = "application/json";
    challenged = false;
    body = error_text "unauthorized";
  }

  wrapped_refuses :
      (h : Handler) (r : Request) (s : Service)
      → IsStranger r
      → wrapped max_bytes (at_least_one_auth (bearer_authorizer d.secret d.verify ∷ []) h) r s
        ≡ (s, replied unauthorized)
  unfolding wrapped make_graceful set_max_bytes_reader set_content_type unauthorized
      bearer_authorizer
  wrapped_refuses h r s stranger =
      ap (λ x. on_reply (λ y. record y { content_type = "application/json" }) (recovered x))
        (auth_refuses (bearer_authorizer d.secret d.verify) h (record r { limit = some max_bytes })
          s (bearer_with_limit r (some max_bytes) stranger.no_bearer))

  protected_refuses :
      (h : Handler) (r : Request) (s : Service)
      → IsStranger r
      → IsRefused d.cors (protected d h) r s
  unfolding protected adapt_handler api_mode api_mode_serve unauthorized
  protected_refuses h r s stranger = elim (cors.decides r s) [
    | inl serves ↦ (
      unauthorized,
      serves (wrapped max_bytes (at_least_one_auth (bearer_authorizer d.secret d.verify ∷ []) h))
          ∙ wrapped_refuses h r s stranger,
      inl refl,
    )
    | inr (reply, answers) ↦ (
      reply,
      answers (wrapped max_bytes (at_least_one_auth (bearer_authorizer d.secret d.verify ∷ []) h)),
      inr answers,
    )
  ]

  token_refuses : (r : Request) (s : Service) → IsStranger r → IsRefused d.cors (issues_token d) r s
  unfolding issues_token adapt_handler basic_authorizer
  token_refuses r s stranger = (
    record { status = 401; content_type = ""; challenged = true; body = error_text "unauthorized" },
    auth_refuses (basic_authorizer d.secret) (handle_issue_token d.sign d.now) r s
        stranger.no_basic,
    inl refl,
  )

  -- Of the routes of the server, every one that is not a public page refuses a request without an
  -- accepted token or password: the service is as it was, and the reply, 401 or that of CORS, tells
  -- nothing of it.
  pub routes_gated :
      ⦃u : Unicode⦄ (r : Request) (s : Service)
      → IsStranger r
      → All
          (λ route. (is_public route.pattern ≡ true) ⊎ IsRefused d.cors route.handler r s)
          (routes d)
  unfolding routes is_public
  routes_gated r s x =
      let gate : (h : Handler) → IsRefused d.cors (protected d h) r s =
        λ h. protected_refuses h r s x in
      (
        inl refl,
        (
          inr (gate _),
          (
            inr (token_refuses r s x),
            (
              inr (gate _),
              (
                inr (gate _),
                (
                  inr (gate _),
                  (
                    inr (gate _),
                    (
                      inr (gate _),
                      (
                        inr (gate _),
                        (
                          inr (gate _),
                          (
                            inr (gate _),
                            (
                              inr (gate _),
                              (
                                inr (gate _),
                                (
                                  inr (gate _),
                                  (inr (gate _), (inl refl, (inl refl, (inl refl, tt)))),
                                ),
                              ),
                            ),
                          ),
                        ),
                      ),
                    ),
                  ),
                ),
              ),
            ),
          ),
        ),
      )
