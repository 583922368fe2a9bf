-- ===== src/Http/Effects.antt =====
-- What a reply of the handlers says of the service behind them.
use Prim.Native.String.{[], ◌∷◌}
use Prim.Native.Char.{Char}
use text.Mathlib.TextEquality.{eq_iff}
use godxfeed.Common.{
  ℕ, String, ◌≡◌, ◌⊎◌, ◌↔◌, inl, inr, refl, ap, true, false, none, List, [], ◌∷◌, if◌then◌else◌,
  arith, ◌==◌, string_eq, Bool-cases, Option-cases,
}
use godxfeed.Common.Dict.{has, has-insert}
use godxfeed.Common.Outcome.{ok, is_ok, Result-cases}
use godxfeed.Common.Text.{Unicode, to_lower, to_upper, lower_char, map_chars, is_nil}
use godxfeed.Common.Floats.{Floats}
use godxfeed.Subject.{subject_for}
use godxfeed.Subscriptions.{
  SubKey, key_eq, FeedController, Manager, add_sub, fresh_state, update_subscription, bulk_add,
}
use godxfeed.Subscriptions.Wire.{mentions}
use godxfeed.Service.{Service, add_subscription, bulk_add_subscriptions}
use godxfeed.Service.Connections.{registered}
use godxfeed.Service.Starts.{bulk_add_registers}
use godxfeed.Service.Symbols.{Rest, get_symbol_data, get_symbology_url, query, bearer_auth}
use godxfeed.Resolver.{FilterSpec, Sub, SymbologySource, resolve}
use godxfeed.Resolver.Exact.{has_sub}
use godxfeed.Http.{
  Request, subject, Out, replied, panicked, write_json_response, write_internal_error,
  write_bad_request_error,
}
use godxfeed.Http.Handlers.{
  BodyDecoder, SubscriptionMutationRequest, parse_mutation, handle_add_subscription,
  handle_nats_stream, first_of,
}
use godxfeed.Http.Symbols.{write_service_response, as_internal, as_bad_request}
use godxfeed.Http.Natural.{pairs_of, dispatch, NlSubscribeRequest}

nonempty : (c : Char) (s : String) → (String.◌∷◌ c s == "") ≡ false
nonempty c s = elim (Bool-cases (String.◌∷◌ c s == "")) [
  | inl e ↦
      let q : String.◌∷◌ c s ≡ "" = (eq_iff (String.◌∷◌ c s) "").0 e in
      let z : false ≡ true = ap is_nil q in cc
  | inr e ↦ e
]

event_default :
    ⦃u : Unicode⦄ (e : String)
    → (if to_lower e == "" then "quote" else to_lower e) ≡ to_lower (if e == "" then "Quote" else e)
unfolding to_lower lower_char
event_default [] = refl
event_default (c ∷ e) = simp (nonempty c e, nonempty (lower_char c) (map_chars lower_char e)) refl

-- The subject that /stream gives for a symbol is the one on which the ingress publishes its events,
-- of the kind that was asked for, or quotes.
stream_subject_agrees :
    ⦃u : Unicode⦄ (r : Request) (s : Service)
    → (first_of (r.query "symbol") == "") ≡ false
    → handle_nats_stream r s ≡ (
      s,
      write_json_response
          (subject (
            subject_for
              (if first_of (r.query "event") == "" then "Quote" else first_of (r.query "event"))
              (first_of (r.query "symbol"))))
          200,
    )
unfolding handle_nats_stream subject_for
stream_subject_agrees r s h = simp (h, event_default (first_of (r.query "event"))) refl

-- The status of a reply, and 0 for a panic.
abbrev pub status_of : Out → ℕ
status_of (replied x) = x.status
status_of (panicked e) = 0

module _ (answer : FeedController) ⦃u : Unicode⦄ where
  add_sub_registers :
      (k : SubKey) (m : Manager)
      → (add_sub answer k m).1 ≡ none
      → has k (add_sub answer k m).0.state ≡ true
  unfolding add_sub update_subscription
  add_sub_registers k m done =
      ground (arith, has-insert k k (fresh_state k) m.state, key_eq.beq_iff k k)

  -- When POST /dxlink/subscriptions answers 200, the pair of the body is registered.
  add_subscription_registers :
      (decode : BodyDecoder SubscriptionMutationRequest) (r : Request) (s : Service)
      → status_of (handle_add_subscription decode answer r s).1 ≡ 200
      → (k : SubKey) × (parse_mutation decode r ≡ ok k)
        × (has k (registered (handle_add_subscription decode answer r s).0) ≡ true)
  unfolding handle_add_subscription add_subscription registered write_json_response
      write_internal_error write_bad_request_error
  add_subscription_registers decode r s done = elim (Result-cases (parse_mutation decode r)) [
    | inr (e, f) ↦ absurd (ground (arith, f, done))
    | inl (k, f) ↦ (
      k,
      f,
      elim (Option-cases s.subs) [
        | inl g ↦ absurd (ground (arith, f, g, done))
        | inr (m, g) ↦ elim (Option-cases (add_sub answer k m).1) [
          | inr (x, h) ↦ absurd (ground (arith, f, g, h, done))
          | inl h ↦ ground (arith, f, g, h, add_sub_registers k m h)
        ]
      ],
    )
  ]

  mentions-pairs_of :
      (k : SubKey) (subs : List Sub) → mentions k (pairs_of subs) ≡ has_sub k.event k.symbol subs
  mentions-pairs_of k [] = refl
  mentions-pairs_of k (x ∷ subs) = ground (
    arith,
    mentions-pairs_of k subs,
    eq_iff x.event k.event,
    eq_iff k.event x.event,
    eq_iff x.symbol k.symbol,
    eq_iff k.symbol x.symbol,
  )

  -- When /nl-subscribe answers 200 for a filter, the filter resolved, and every pair that it resolved
  -- to is registered.
  pub dispatch_registers :
      (f : Floats) (source : SymbologySource) (decode : BodyDecoder NlSubscribeRequest)
      (name : String) (filter : FilterSpec f) (s : Service)
      → status_of (dispatch f answer source decode name filter s).1 ≡ 200
      → (subs : List Sub) × (resolve f source filter ≡ ok subs)
        × ((k : SubKey)
            → has_sub k.event k.symbol subs ≡ true
            → has k (registered (dispatch f answer source decode name filter s).0) ≡ true)
  unfolding dispatch bulk_add_subscriptions registered write_json_response write_internal_error
  dispatch_registers f source decode name filter s done =
      elim (Result-cases (resolve f source filter)) [
        | inr (e, g) ↦ absurd (ground (arith, g, done))
        | inl (subs, g) ↦ (
          subs,
          g,
          λ k listed. elim (Option-cases s.subs) [
            | inl h ↦ absurd (ground (arith, g, h, done))
            | inr (m, h) ↦ elim (Option-cases (bulk_add answer (pairs_of subs) m).1) [
              | inr (x, i) ↦ absurd (ground (arith, g, h, i, done))
              | inl i ↦ ground (
                arith,
                g,
                h,
                i,
                bulk_add_registers answer (pairs_of subs) m k i,
                mentions-pairs_of k subs,
                listed,
              )
            ]
          ],
        )
      ]

module _ (endpoint : String) (rest : Rest) where
  query_status :
      (text url : String)
      → (status_of (write_service_response (query endpoint rest text url)) ≡ 200)
        ⊎ (status_of (write_service_response (query endpoint rest text url)) ≡ 500)
  unfolding write_service_response query bearer_auth as_internal as_bad_request write_json_response
  query_status text url = ground arith

  -- GET /symbol answers 400 exactly when the type, in lower case, is none of the five; everything
  -- that fails later answers 500.
  symbol_status :
      ⦃u : Unicode⦄ (symbol symbol_type : String)
      → (status_of (write_service_response (get_symbol_data endpoint rest symbol symbol_type))
          ≡ 400)
        ↔ (is_ok (get_symbology_url endpoint (to_lower symbol_type) (to_upper symbol)) ≡ false)
  unfolding write_service_response get_symbol_data get_symbology_url as_internal as_bad_request
      write_json_response
  symbol_status symbol symbol_type =
      elim (Result-cases (get_symbology_url endpoint (to_lower symbol_type) (to_upper symbol))) [
        | inl (url, e) ↦
            ground (arith, e, query_status "tastytrade error for symbology query: %s" url)
        | inr (x, e) ↦ ground (arith, e)
      ]
