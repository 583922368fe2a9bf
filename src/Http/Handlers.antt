-- ===== src/Http/Handlers.antt =====
-- http/handlers_dxlink.go, http/handlers_streaming.go and http/handlers_tokens.go.
use Prim.Native.String
use godxfeed.Common.{
  ℕ, ◌+◌, String, Option, none, some, List, [], ◌∷◌, if◌then◌else◌, ◌==◌, string_eq,
}
use godxfeed.Common.Outcome.{Result, ok, err, fail, wrap, ◌>>=◌, context}
use godxfeed.Common.Text.{Unicode, to_lower, trim_space, trim_prefix}
use godxfeed.Subscriptions.{SubKey, FeedController}
use godxfeed.Service.{subscriptions, add_subscription, remove_subscription}
use godxfeed.Service.Connect.{TokenData}
use godxfeed.Http.{
  Claims, Request, blank, message, token, subject, link_status, subscription_list, streamer_token,
  Handler, write_json_response, write_internal_error, write_bad_request_error,
}

-- handleDXLinkStatus, handleDXLinkSubscriptions
unfoldable pub handle_dx_link_status : Handler
unfolding write_json_response
handle_dx_link_status r s = (s, write_json_response (link_status s.dx_status) 200)

unfoldable pub handle_dx_link_subscriptions : Handler
unfolding write_json_response
handle_dx_link_subscriptions r s =
    (s, write_json_response (subscription_list (subscriptions s)) 200)

pub record SubscriptionMutationRequest : Type 0 where
  pub event : String
  pub symbol : String

-- The decoder of a body under the limit of its reader.
abbrev pub BodyDecoder : Type 0 → Type 0
BodyDecoder A = Option ℕ → String → Result A

module _ (decode : BodyDecoder SubscriptionMutationRequest) where
  unfoldable pub parse_mutation : Request → Result SubKey
  unfolding trim_space
  parse_mutation r = context (wrap "invalid JSON body: %w" []) (decode r.limit r.body) >>= λ body.
      (if trim_space body.symbol == ""
        then err (fail "symbol is required" [])
        else ok (record {
          event = if trim_space body.event == "" then "Quote" else trim_space body.event;
          symbol = trim_space body.symbol;
        }))

  module _ (answer : FeedController) where
    unfoldable pub handle_remove_subscription : Handler
    unfolding parse_mutation remove_subscription write_json_response write_internal_error
        write_bad_request_error
    handle_remove_subscription r s = elim (parse_mutation r) [
      | err e ↦ (s, write_bad_request_error e)
      | ok k ↦
          let (s', failed) = remove_subscription answer k s in
          elim failed [
            | some e ↦ (s', write_internal_error e)
            | none ↦ (s', write_json_response (message "unsubscribed") 200)
          ]
    ]

    unfoldable pub handle_add_subscription : ⦃u : Unicode⦄ → Handler
    unfolding parse_mutation add_subscription write_json_response write_internal_error
        write_bad_request_error
    handle_add_subscription r s = elim (parse_mutation r) [
      | err e ↦ (s, write_bad_request_error e)
      | ok k ↦
          let (s', failed) = add_subscription answer k s in
          elim failed [
            | some e ↦ (s', write_internal_error e)
            | none ↦ (s', write_json_response (message "subscribed") 200)
          ]
    ]

-- r.URL.Query().Get(key)
abbrev pub first_of : List String → String
first_of [] = ""
first_of (v ∷ vs) = v

-- handleNATSStream
unfoldable pub handle_nats_stream : ⦃u : Unicode⦄ → Handler
unfolding write_json_response write_bad_request_error to_lower
handle_nats_stream r s =
    let symbol = first_of (r.query "symbol") in
    let event = to_lower (first_of (r.query "event")) in
    if symbol == "" then (s, write_bad_request_error (fail "missing symbol parameter" [])) else (
      s,
      write_json_response
          (subject (
            String.◌++◌ "godxfeed."
              (String.◌++◌ (if event == "" then "quote" else event) (String.◌++◌ "." symbol))))
          200,
    )

-- generateAccessToken, as a signature of the claims.
module _ (sign : Claims → Result String) (now : ℕ) where
  -- createBearerToken
  unfoldable pub create_bearer_token : String → ℕ → Result String
  create_bearer_token email expires_at = sign (record { email = email; expires_at = expires_at })

  -- Two weeks, in nanoseconds.
  abbrev pub fortnight : ℕ
  fortnight = 1_209_600_000_000_000

  unfoldable pub handle_issue_token : Handler
  unfolding create_bearer_token write_json_response write_internal_error
  handle_issue_token r s = elim r.ctx_email [
    | none ↦ (s, write_internal_error (fail "missing context key for basic auth email" []))
    | some email ↦ elim (create_bearer_token email (now + fortnight)) [
      | err e ↦ (s, write_internal_error e)
      | ok t ↦ (s, write_json_response (token t) 200)
    ]
  ]

-- handleRefreshToken, which has the body of handleNATSCallout.
unfoldable pub handle_refresh_token : Handler
unfolding write_json_response trim_prefix
handle_refresh_token r s =
    (s, write_json_response (token (trim_prefix r.authorization "Bearer ")) 200)

unfoldable pub handle_nats_callout : Handler
unfolding handle_refresh_token write_json_response trim_prefix
handle_nats_callout r s =
    (s, write_json_response (token (trim_prefix r.authorization "Bearer ")) 200)

unfoldable pub handle_test_bearer_token : Handler
unfolding write_json_response
handle_test_bearer_token r s = (s, write_json_response blank 200)

-- handleNewStreamerToken
unfoldable pub handle_new_streamer_token : Result TokenData → Handler
unfolding write_json_response write_internal_error
handle_new_streamer_token td r s = elim td [
  | err e ↦ (s, write_internal_error e)
  | ok t ↦ (s, write_json_response (streamer_token t) 200)
]
