-- ===== src/Http.antt =====
-- The HTTP server of http/: its requests and replies, and the middleware of http/adapter.go and
-- http/middleware.go. A handler takes the service and gives it back with what it replied.
pub mod Auth
pub mod Layers
pub mod Handlers
pub mod Symbols
pub mod Natural
pub mod Pages
pub mod Routes
pub mod Gate
pub mod Effects
use godxfeed.Common.{
  ℕ, String, ◌≡◌, ◌⊎◌, Bool, true, false, ◌||◌, Option, none, some, List, [], ◌∷◌,
}
use godxfeed.Common.Outcome.{Error}
use godxfeed.Api.{Response}
use godxfeed.Subscriptions.{SubscriptionInfo}
use godxfeed.Service.{Service, DxLinkStatus}
use godxfeed.Service.Connect.{TokenData}
use godxfeed.Resolver.{Sub}

-- authJWTClaims
pub record Claims : Type 0 where
  pub email : String
  pub expires_at : ℕ

-- `query` lists the values of a key. `limit` is that of the MaxBytesReader around the body, and the
-- last two are the values that the middleware puts in the context.
pub record Request : Type 0 where
  pub authorization : String
  pub basic_auth : Option (String × String)
  pub query : String → List String
  pub body : String
  pub limit : Option ℕ
  pub ctx_email : Option String
  pub ctx_jwt : Option Claims

-- What is encoded to JSON: a field `message`, a field `error` with a text or with an error's text,
-- or the value of a handler. A page has the error that rendering it ended with.
pub data Body : Type 0 where
  blank : Body
  message : String → Body
  error_text : String → Body
  error_of : Error → Body
  token : String → Body
  subject : String → Body
  link_status : DxLinkStatus → Body
  subscription_list : List SubscriptionInfo → Body
  service_response : Response → Body
  streamer_token : TokenData → Body
  subscribed : String → List (Sub × String) → Body
  page : String → String → Option Error → Body

pub record Reply : Type 0 where
  pub status : ℕ
  pub content_type : String
  pub challenged : Bool
  pub body : Body

-- A handler replies or panics.
pub data Out : Type 0 where
  replied : Reply → Out
  panicked : Error → Out

abbrev pub Handler : Type 0
Handler = Request → Service → Service × Out

abbrev pub HandlerAdapter : Type 0
HandlerAdapter = Handler → Handler

-- writeJSONResponse
unfoldable pub write_json_response : Body → ℕ → Out
write_json_response body code =
    replied (record { status = code; content_type = ""; challenged = false; body = body })

unfoldable pub write_internal_error : Error → Out
unfolding write_json_response
write_internal_error e = write_json_response (error_of e) 500

unfoldable pub write_bad_request_error : Error → Out
unfolding write_json_response
write_bad_request_error e = write_json_response (error_of e) 400

-- adaptHandler: the last adapter is the innermost.
unfoldable pub adapt_handler : Handler → List HandlerAdapter → Handler
adapt_handler h [] = h
adapt_handler h (opt ∷ opts) = opt (adapt_handler h opts)

unfoldable pub handle_ping : Handler
unfolding write_json_response
handle_ping r s = (s, write_json_response (message "pong") 200)

-- A change of the reply, where there is one.
abbrev pub on_reply : (Reply → Reply) → Service × Out → Service × Out
on_reply f (s, replied x) = (s, replied (f x))
on_reply f (s, panicked e) = (s, panicked e)

abbrev pub recovered : Service × Out → Service × Out
recovered (s, replied x) = (s, replied x)
recovered (s, panicked e) = (s, write_internal_error e)

-- makeGraceful. No handler writes before it panics.
unfoldable pub make_graceful : HandlerAdapter
unfolding write_internal_error
make_graceful next r s = recovered (next r s)

unfoldable pub set_max_bytes_reader : ℕ → HandlerAdapter
set_max_bytes_reader mb next r s = next (record r { limit = some mb }) s

unfoldable pub set_content_type : String → HandlerAdapter
set_content_type content next r s = on_reply (λ x. record x { content_type = content }) (next r s)

-- The three assignments to `next` in apiMode.
unfoldable pub wrapped : ℕ → HandlerAdapter
unfolding make_graceful set_max_bytes_reader set_content_type
wrapped max_bytes next =
    set_content_type "application/json" (set_max_bytes_reader max_bytes (make_graceful next))

-- apiMode serving one request: what `next` is afterwards, and what the request gets. `cors` is
-- gorilla's handlers.CORS.
unfoldable pub api_mode_serve :
    (cors : HandlerAdapter) → ℕ → Handler → Request → Service → Handler × (Service × Out)
unfolding wrapped
api_mode_serve cors max_bytes next r s =
    let next' = wrapped max_bytes next in (next', cors next' r s)

-- apiMode at its first request.
unfoldable pub api_mode : HandlerAdapter → ℕ → HandlerAdapter
unfolding api_mode_serve
api_mode cors max_bytes next r s = (api_mode_serve cors max_bytes next r s).1
