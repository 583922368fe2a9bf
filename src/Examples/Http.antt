-- ===== src/Examples/Http.antt =====
-- Witnesses of the theorems on the HTTP server.
use godxfeed.Common.{
  String, ◌≡◌, ◌⊎◌, inl, refl, true, false, none, some, List, [], ◌∷◌, All, ◌==◌, string_eq,
  if◌then◌else◌,
}
use godxfeed.Common.Outcome.{ok, err, opaque}
use godxfeed.Subscriptions.{key_eq}
use godxfeed.Http.{Request, message, replied, HandlerAdapter}
use godxfeed.Http.Auth.{bearer_authorizer, basic_authorizer}
use godxfeed.Http.Handlers.{BodyDecoder, SubscriptionMutationRequest}
use godxfeed.Http.Natural.{NlSubscribeRequest}
use godxfeed.Http.Routes.{Deps, routes}
use godxfeed.Http.Gate.{IsCors, IsRefused, is_public, routes_gated}
use godxfeed.Examples.{ascii_only, accepting}
use godxfeed.Examples.Service.{dropped}
use godxfeed.Examples.Resolver.{small, rest}

abbrev ask : String → List String
ask key = if key == "symbol" then "SPY" ∷ [] else []

abbrev pub request : Request
request = record {
  authorization = "";
  basic_auth = some ("me", "guess");
  query = ask;
  body = "SPY";
  limit = none;
  ctx_email = none;
  ctx_jwt = none;
}

-- No CORS headers are asked for.
abbrev same_origin : HandlerAdapter
same_origin next r s = next r s

same_origin-IsCors : IsCors same_origin
same_origin-IsCors = record { decides = λ r s. inl (λ next. refl) }

abbrev symbol_body : BodyDecoder SubscriptionMutationRequest
symbol_body limit body = ok (record { event = ""; symbol = body })

abbrev pub text_body : BodyDecoder NlSubscribeRequest
text_body limit body = ok (record { text = body; provider = "" })

abbrev pub deps : Deps small
deps = record {
  cors = same_origin;
  secret = "secret";
  verify = λ key token. none;
  sign = λ claims. ok "jwt";
  now = 1;
  answer = accepting;
  endpoint = "api";
  rest = rest;
  decode_mutation = symbol_body;
  decode_nl = text_body;
  registry = record { providers = []; default = "" };
  streamer_token = err (opaque 1);
  render = λ name symbol. none;
  static_files = λ r s. (
    s,
    replied (record { status = 404; content_type = ""; challenged = false; body = message "" }),
  );
}

routes_gated_example :
    All
      (λ route.
        (is_public route.pattern ≡ true) ⊎ IsRefused same_origin route.handler request dropped)
      (routes deps)
unfolding bearer_authorizer basic_authorizer
routes_gated_example =
    routes_gated deps same_origin-IsCors request dropped
      (record { no_bearer = refl; no_basic = refl })
