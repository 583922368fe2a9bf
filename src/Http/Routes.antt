-- ===== src/Http/Routes.antt =====
-- The routes that RunHTTPServer registers (http/http.go).
use Prim.Native.String.{[], ◌∷◌}
use Prim.Native.Char.{code}
use godxfeed.Common.{ℕ, String, Option, List, [], ◌∷◌, map, eqb, if◌then◌else◌}
use godxfeed.Common.Outcome.{Error, Result}
use godxfeed.Common.Text.{Unicode, split}
use godxfeed.Common.Floats.{Floats}
use godxfeed.Subscriptions.{FeedController}
use godxfeed.Service.Connect.{TokenData}
use godxfeed.Service.Symbols.{Rest}
use godxfeed.Http.{Claims, Handler, HandlerAdapter, adapt_handler, api_mode, handle_ping}
use godxfeed.Http.Auth.{bearer_authorizer, basic_authorizer, at_least_one_auth}
use godxfeed.Http.Handlers.{
  BodyDecoder, SubscriptionMutationRequest, handle_dx_link_status, handle_dx_link_subscriptions,
  handle_add_subscription, handle_remove_subscription, handle_nats_stream, handle_issue_token,
  handle_refresh_token, handle_nats_callout, handle_test_bearer_token, handle_new_streamer_token,
}
use godxfeed.Http.Symbols.{handle_get_symbol_data, handle_get_option_chain}
use godxfeed.Http.Natural.{
  ProviderRegistry, NlSubscribeRequest, service_symbology, handle_nl_subscribe,
}
use godxfeed.Http.Pages.{handle_get_plots, handle_admin, handle_index}

-- What the server is given and what it calls, at the time of a request.
pub record Deps (f : Floats) : Type 0 where
  pub cors : HandlerAdapter
  pub secret : String
  pub verify : String → String → Option Claims
  pub sign : Claims → Result String
  pub now : ℕ
  pub answer : FeedController
  pub endpoint : String
  pub rest : Rest
  pub decode_mutation : BodyDecoder SubscriptionMutationRequest
  pub decode_nl : BodyDecoder NlSubscribeRequest
  pub registry : ProviderRegistry f
  pub streamer_token : Result TokenData
  pub render : String → String → Option Error
  pub static_files : Handler

pub record Route : Type 0 where
  pub pattern : String
  pub handler : Handler

abbrev pub max_bytes : ℕ
max_bytes = 1_048_576

-- normalizeCORSParams, whose ReplaceAll drops the spaces of an entry.
abbrev drop_spaces : String → String
drop_spaces [] = []
drop_spaces (c ∷ s) = let rest = drop_spaces s in if eqb (code c) 32 then rest else c ∷ rest

unfoldable pub normalize_cors_params : String → List String
unfolding split
normalize_cors_params e = map drop_spaces (split 44 e)

module _ {f : Floats} (d : Deps f) where
  -- The adapters of a protected route.
  unfoldable pub protected : Handler → Handler
  unfolding adapt_handler api_mode at_least_one_auth bearer_authorizer
  protected h = adapt_handler h (
      api_mode d.cors max_bytes ∷ at_least_one_auth (bearer_authorizer d.secret d.verify ∷ []) ∷ [])

  unfoldable pub issues_token : Handler
  unfolding adapt_handler at_least_one_auth basic_authorizer handle_issue_token
  issues_token =
      adapt_handler (handle_issue_token d.sign d.now)
        (at_least_one_auth (basic_authorizer d.secret ∷ []) ∷ [])

  unfoldable pub routes : ⦃u : Unicode⦄ → List Route
  unfolding protected issues_token adapt_handler handle_ping handle_refresh_token
      handle_test_bearer_token handle_nats_callout handle_new_streamer_token handle_get_symbol_data
      handle_get_option_chain handle_nats_stream handle_dx_link_status handle_dx_link_subscriptions
      handle_add_subscription handle_remove_subscription handle_nl_subscribe service_symbology
      handle_get_plots handle_admin handle_index
  routes =
      record { pattern = "GET /static/"; handler = d.static_files }
      ∷ record { pattern = "GET /ping"; handler = protected handle_ping }
      ∷ record { pattern = "POST /token"; handler = issues_token }
      ∷ record { pattern = "POST /refresh-token"; handler = protected handle_refresh_token }
      ∷ record { pattern = "GET /test-bearer-token"; handler = protected handle_test_bearer_token }
      ∷ record { pattern = "GET /nats-auth-callout"; handler = protected handle_nats_callout }
      ∷ record {
        pattern = "GET /streamer-token";
        handler = protected (handle_new_streamer_token d.streamer_token);
      }
      ∷ record {
        pattern = "GET /symbol";
        handler = protected (handle_get_symbol_data d.endpoint d.rest);
      }
      ∷ record {
        pattern = "GET /option-chain";
        handler = protected (handle_get_option_chain d.endpoint d.rest);
      }
      ∷ record { pattern = "POST /stream"; handler = protected handle_nats_stream }
      ∷ record { pattern = "GET /dxlink/status"; handler = protected handle_dx_link_status }
      ∷ record {
        pattern = "GET /dxlink/subscriptions";
        handler = protected handle_dx_link_subscriptions;
      }
      ∷ record {
        pattern = "POST /dxlink/subscriptions";
        handler = protected (handle_add_subscription d.decode_mutation d.answer);
      }
      ∷ record {
        pattern = "DELETE /dxlink/subscriptions";
        handler = protected (handle_remove_subscription d.decode_mutation d.answer);
      }
      ∷ record {
        pattern = "POST /nl-subscribe";
        handler = protected (
            handle_nl_subscribe f d.answer (service_symbology d.endpoint d.rest) d.decode_nl
              d.registry);
      }
      ∷ record { pattern = "GET /plots"; handler = adapt_handler (handle_get_plots d.render) [] }
      ∷ record { pattern = "GET /admin"; handler = adapt_handler (handle_admin d.render) [] }
      ∷ record { pattern = "GET /"; handler = adapt_handler (handle_index d.render) [] }
      ∷ []
