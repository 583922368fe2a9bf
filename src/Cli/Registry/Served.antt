-- ===== src/Cli/Registry/Served.antt =====
-- POST /nl-subscribe with the language models of the command line.
use godxfeed.Common.{
  String, ◌≡◌, inl, inr, sym, ap, ◌∙◌, true, false, some, List, if◌then◌else◌, arith, ◌==◌,
  string_eq, Bool-cases, Option-cases, is_empty,
}
use godxfeed.Common.Dict.{lookup, has}
use godxfeed.Common.Outcome.{ok, Result-cases}
use godxfeed.Common.Text.{Unicode}
use godxfeed.Common.Floats.{Floats}
use godxfeed.Cli.{Context}
use godxfeed.Cli.Registry.Asks.{Asked, llm_providers-Asks}
use godxfeed.Cli.Registry.{Models, build_llm_registry}
use godxfeed.Exchange.{Provider as Settings}
use godxfeed.Gemini.{Fields}
use godxfeed.Http.{Request, write_json_response, write_bad_request_error}
use godxfeed.Http.Effects.{status_of, dispatch_registers}
use godxfeed.Http.Handlers.{BodyDecoder}
use godxfeed.Http.Natural.{
  Provider, NlSubscribeRequest, extract_and_dispatch, dispatch, handle_nl_subscribe,
}
use godxfeed.Providers.{Vendor}
use godxfeed.Providers.Reply.{IsReply, Carries, request_of, json_of}
use godxfeed.Providers.Extraction.{extract_sound}
use godxfeed.Resolver.{FilterSpec, Sub, SymbologySource, resolve}
use godxfeed.Resolver.Exact.{has_sub}
use godxfeed.Service.{Service}
use godxfeed.Service.Connections.{registered}
use godxfeed.Subscriptions.{SubKey, key_eq, FeedController}

-- The name of the vendor that a request is for.
abbrev pub asked_name : {f : Floats} → Models f → Context → NlSubscribeRequest → String
asked_name m ctx req =
    if req.provider == "" then (build_llm_registry m ctx).default else req.provider

module _ {f : Floats} (m : Models f) (ctx : Context) (answer : FeedController)
    (source : SymbologySource) (decode : BodyDecoder NlSubscribeRequest) ⦃u : Unicode⦄ where
  -- Where the handler comes to, if it answers 200.
  subscribe_steps :
      (r : Request) (s : Service)
      → status_of (handle_nl_subscribe f answer source decode (build_llm_registry m ctx) r s).1
        ≡ 200
      → (req : NlSubscribeRequest) × (decode r.limit r.body ≡ ok req)
        × ((p : Provider f) × (filter : FilterSpec f) × (lookup
                (asked_name m ctx req)
                (build_llm_registry m ctx).providers
              ≡ some p)
            × (p.extract req.text ≡ ok filter)
            × (handle_nl_subscribe f answer source decode (build_llm_registry m ctx) r s
                ≡ dispatch f answer source decode p.name filter s))
  unfolding handle_nl_subscribe extract_and_dispatch write_json_response write_bad_request_error
  subscribe_steps r s done = elim (Bool-cases (is_empty (build_llm_registry m ctx).providers)) [
    | inl bare ↦ absurd (ground (arith, bare, done))
    | inr full ↦ elim (Result-cases (decode r.limit r.body)) [
      | inr (e, bad) ↦ absurd (ground (arith, full, bad, done))
      | inl (req, read) ↦ elim (Bool-cases (req.text == "")) [
        | inl silent ↦ absurd (ground (arith, full, read, silent, done))
        | inr spoken ↦
            elim (Option-cases
              (lookup (asked_name m ctx req) (build_llm_registry m ctx).providers)) [
                | inl unknown ↦ absurd (ground (arith, full, read, spoken, unknown, done))
                | inr (p, found) ↦ elim (Result-cases (p.extract req.text)) [
                  | inr (e, failed) ↦
                      absurd (ground (arith, full, read, spoken, found, failed, done))
                  | inl (filter, extracted) ↦ (
                    req,
                    read,
                    (
                      p,
                      filter,
                      found,
                      extracted,
                      ground (arith, full, read, spoken, found, extracted),
                    ),
                  )
                ]
              ]
      ]
    ]
  ]

  -- When the server that is started with these flags answers 200 to POST /nl-subscribe: the vendor that
  -- the request names, or the default, was asked with its key of the flags for the text of the request,
  -- in its format; its reply of 2xx carries the text of a filter, by its format; the filter resolves;
  -- and every pair that it resolves to is registered.
  pub nl_subscribe_registers :
      (r : Request) (s : Service)
      → status_of (handle_nl_subscribe f answer source decode (build_llm_registry m ctx) r s).1
        ≡ 200
      → (req : NlSubscribeRequest) × (decode r.limit r.body ≡ ok req)
        × ((v : Vendor) × (settings : Settings) × Asked m ctx (asked_name m ctx req) v settings
            × ((settings.api_key == "") ≡ false)
            × ((schema : Fields) × (body raw : String) × (m.transport.schema ≡ ok schema)
                × (m.transport.marshal (json_of v settings m.date req.text schema) ≡ ok body)
                × IsReply m.transport (request_of v settings body) raw
                × ((text : String) × Carries v raw text
                    × ((text == "") ≡ false)
                    × ((filter : FilterSpec f) × (m.parse text ≡ ok filter)
                        × ((subs : List Sub) × (resolve f source filter ≡ ok subs)
                            × ((k : SubKey)
                                → has_sub k.event k.symbol subs ≡ true
                                → has k (
                                    registered
                                      (handle_nl_subscribe f answer source decode
                                        (build_llm_registry m ctx)
                                        r
                                        s).0)
                                  ≡ true))))))
  unfolding build_llm_registry
  nl_subscribe_registers r s done =
      let (req, read, (p, filter, found, extracted, same)) = subscribe_steps r s done in
      let (v, settings, asked, asks) = llm_providers-Asks m ctx (asked_name m ctx req) p found in
      let (
        full, model, schema, embedded, body, marshalled, raw, got, text, carried, spoken, parsed,
      ) =
        extract_sound m.parse m.transport m.date req.text v settings filter
          (sym (asks req.text) ∙ extracted) in
      let (subs, resolved, there) =
        dispatch_registers answer f source decode p.name filter s
          (ap (λ x. status_of x.1) (sym same) ∙ done) in
      (
        req,
        read,
        (
          v,
          settings,
          asked,
          full,
          (
            schema,
            body,
            raw,
            embedded,
            marshalled,
            got,
            (
              text,
              carried,
              spoken,
              (
                filter,
                parsed,
                (
                  subs,
                  resolved,
                  λ k listed. ap (λ x. has k (registered x.0)) same ∙ there k listed,
                ),
              ),
            ),
          ),
        ),
      )
