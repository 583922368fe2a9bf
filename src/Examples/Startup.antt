-- ===== src/Examples/Startup.antt =====
-- Witnesses of the theorems on the start of the server.
use mathlib.Core.Path.{subst}
use godxfeed.Cli.Registry.Served.{asked_name, nl_subscribe_registers}
use godxfeed.Cli.Registry.Asks.{Asked}
use godxfeed.Gemini.{Fields}
use godxfeed.Exchange.{Provider as Settings}
use godxfeed.Http.Effects.{status_of}
use godxfeed.Http.Natural.{NlSubscribeRequest, dispatch, handle_nl_subscribe}
use godxfeed.Providers.{Vendor}
use godxfeed.Providers.Reply.{IsReply, Carries, request_of, json_of}
use godxfeed.Resolver.{FilterSpec, Sub, resolve}
use godxfeed.Resolver.Exact.{has_sub}
use godxfeed.Examples.Http.{request, text_body}
use godxfeed.Cli.Flags.{flag_of, reads_text, http_server_command, oauth_flags, nats_flags}
use godxfeed.Cli.Flags.Reads.{IsSame, serve_http_reads_declared}
use godxfeed.Common.{
  Bool-cases, inl, inr, ==_sound, ◌≤◌, ◌<◌, String, ◌≡◌, refl, ◌⊎◌, Bool, true, false, not, none,
  List, [], ◌∷◌, arith, All, ◌==◌, string_eq, if◌then◌else◌, is_empty, length,
}
use godxfeed.Common.Dict.{has, insert, lookup}
use godxfeed.Common.Int64.{two_63}
use godxfeed.Common.Outcome.{Result, ok, err, opaque}
use godxfeed.Api.{EquitySymbol, Response}
use godxfeed.Cli.{
  Context, Setup, related_to_only, required_flags, resolve_stream_symbols, setup_service,
}
use godxfeed.Cli.Registry.{Models, build_llm_registry, build_llm_registry_default}
use godxfeed.Cli.Startup.{Host, Serving, served_with, start_publishing, build_sinks, serve_http}
use godxfeed.Cli.Startup.Order.{AreBuilt, serve_http_publishes}
use godxfeed.Cli.Symbols.{resolve_stream_symbols_bound}
use godxfeed.Common.Sort.{sort_slice}
use godxfeed.Service.Symbols.{get_symbol_data, get_stream_symbols, n_related_options}
use godxfeed.Common.Text.{trim_space}
use godxfeed.EnvFile.{require_flags}
use godxfeed.EnvFile.Given.{IsGiven}
use godxfeed.Service.{new_service}
use godxfeed.Service.Connect.{
  quotes, start_ingress, initial_subscribe, dial_and_subscribe, connect, attach_manager,
  connected_to,
}
use godxfeed.Service.Connections.{registered, IsLive}
use godxfeed.Sinks.{ensure_quotes_stream}
use godxfeed.Subscriptions.{
  SubKey, key_eq, new_subscription_manager, bulk_add, update_subscription, unregistered,
}
use godxfeed.Subscriptions.Wire.{mentions}
use godxfeed.Examples.{ascii_only, accepting}
use godxfeed.Examples.Models.{answering, answers}
use godxfeed.Examples.Resolver.{small, source, rest, march_calls}
use godxfeed.Examples.Service.{good, dropped}

-- The command line: a key for OpenAI, two sinks, and the options of one symbol.
abbrev values : String → String
values name =
    if name == "symbol-method"
    then "n-related"
    else if name == "dxfeed-url"
    then ""
    else if name == "anthropic-api-key"
    then ""
    else if name == "gemini-api-key"
    then ""
    else if name == "llm-default"
    then "gemini"
    else "x"

abbrev ctx : Context
ctx = record {
  string = values;
  bool = λ name. false;
  int = λ name. 2;
  string_slice =
      λ name. if name == "symbols" then "spy" ∷ [] else "postgres://a" ∷ "postgres://b" ∷ [];
}

abbrev models : Models small
models = record {
  parse = λ text. ok march_calls;
  transport = answering;
  date = "2026-05-01 (Friday)";
  decode_anthropic = λ raw. err (opaque 1);
  decode_openai = answers;
  decode_gemini = λ raw. err (opaque 1);
}

build_llm_registry_default_example :
    (has "anthropic" (build_llm_registry models ctx).providers ≡ false)
    × (has "openai" (build_llm_registry models ctx).providers ≡ true)
    × (has "gemini" (build_llm_registry models ctx).providers ≡ false)
    × (has (build_llm_registry models ctx).default (build_llm_registry models ctx).providers
        ≡ not (is_empty (build_llm_registry models ctx).providers))
    × ((build_llm_registry models ctx).default
        ≡ (if has "gemini" (build_llm_registry models ctx).providers then "gemini" else "openai"))
build_llm_registry_default_example = build_llm_registry_default models ctx

symbols : resolve_stream_symbols rest small ctx ≡ ok ("SPY" ∷ ".SPY" ∷ ".SPY" ∷ [])
unfolding resolve_stream_symbols related_to_only get_stream_symbols n_related_options sort_slice
symbols = refl

resolve_stream_symbols_bound_example :
    (2 < two_63)
    × (((◌≡◌ {A = Bool} true true)
          × ((sym : String) × (twr : Response) × (eq : EquitySymbol) × (relateds : List String)
              × (◌≡◌ {A = List String} ("spy" ∷ []) (sym ∷ []))
              × (get_symbol_data "x" rest sym "equities" ≡ ok twr)
              × (rest.equity twr.data_text ≡ ok eq)
              × (◌≡◌ {A = List String}
                  ("SPY" ∷ ".SPY" ∷ ".SPY" ∷ [])
                  (eq.streamer_symbol ∷ relateds))
              × (n_related_options "x" rest small 2 sym ≡ ok relateds)
              × (length relateds ≤ 2)))
        ⊎ ((◌≡◌ {A = Bool} true false)
            × (◌≡◌ {A = List String} ("SPY" ∷ ".SPY" ∷ ".SPY" ∷ []) ("spy" ∷ []))))
resolve_stream_symbols_bound_example =
    resolve_stream_symbols_bound rest small ctx ("SPY" ∷ ".SPY" ∷ ".SPY" ∷ []) (omega arith) symbols

abbrev host : Host
host = record {
  nats = λ settings. record {
    connect_auth = none;
    connect_app = none;
    from_seed = none;
    add_service = none;
  };
  rest_of = λ provider. rest;
  jetstream = none;
  update_stream = none;
  build_sink = λ dsn. ok (record { name = "timescale"; dsn = dsn });
  run_sink = λ sink. none;
  answer = accepting;
  attempt = good 1;
}

abbrev served : Serving small
served = record {
  log_level = 2;
  addr = "x";
  tw_endpoint = "x";
  dx_endpoint = "x";
  nats_browser_url = "x";
  dev_mode = false;
  service =
      (start_ingress accepting ("SPY" ∷ ".SPY" ∷ ".SPY" ∷ []) (good 1) (new_service "x" "" true)).0;
  registry = build_llm_registry models ctx;
  sinks =
      record { name = "timescale"; dsn = "postgres://a" }
      ∷ record { name = "timescale"; dsn = "postgres://b" }
      ∷ [];
  logged = [];
}

serves : serve_http models host ctx ≡ ok served
unfolding serve_http served_with require_flags required_flags setup_service resolve_stream_symbols
    related_to_only get_stream_symbols n_related_options sort_slice start_publishing build_sinks
    ensure_quotes_stream start_ingress initial_subscribe dial_and_subscribe connect attach_manager
    connected_to new_subscription_manager bulk_add update_subscription unregistered has trim_space
serves = refl

serve_http_publishes_example :
    All (IsGiven values) (required_flags ctx)
    × AreBuilt host.build_sink ("postgres://a" ∷ "postgres://b" ∷ []) served.sinks
    × All (λ sink. host.run_sink sink ≡ none) served.sinks
    × IsLive 1 served.service
    × (tts : Setup) × (syms : List String) × (setup_service host.nats false ctx ≡ ok tts)
    × (resolve_stream_symbols (host.rest_of tts.provider) small ctx ≡ ok syms)
    × ((k : SubKey) → mentions k (quotes syms) ≡ true → has k (registered served.service) ≡ true)
serve_http_publishes_example = serve_http_publishes models host ctx served refl serves refl

-- The same command line with a flag that there is not.
abbrev noisy : Context
noisy = record ctx { string = λ name. if name == "color" then "red" else values name }

noisy-IsSame : IsSame http_server_command ctx noisy
unfolding http_server_command flag_of oauth_flags nats_flags
noisy-IsSame = record {
  strings = λ name h. elim (Bool-cases (name == "color")) [
    | inl new ↦
        let k : reads_text (flag_of "color" http_server_command.flags) ≡ true =
          subst (λ n. reads_text (flag_of n http_server_command.flags) ≡ true)
            (==_sound name "color" new) h in
        absurd (ground (arith, k))
    | inr old ↦ rw old refl
  ];
  ints = λ name h. refl;
  bools = λ name h. refl;
  slices = λ name h. refl;
}

serve_http_reads_declared_example : serve_http models host ctx ≡ serve_http models host noisy
serve_http_reads_declared_example = serve_http_reads_declared models host ctx noisy noisy-IsSame

subscribes :
    status_of
      (handle_nl_subscribe small accepting source text_body
        (build_llm_registry models ctx)
        request
        dropped).1
    ≡ 200
unfolding handle_nl_subscribe build_llm_registry dispatch bulk_add unregistered has sort_slice
    update_subscription insert lookup
subscribes = refl

nl_subscribe_registers_example :
    (req : NlSubscribeRequest) × (text_body none "SPY" ≡ ok req)
    × ((v : Vendor) × (settings : Settings) × Asked models ctx
          (asked_name models ctx req)
          v
          settings
        × ((settings.api_key == "") ≡ false)
        × ((schema : Fields) × (body raw : String) × (answering.schema ≡ ok schema)
            × (answering.marshal (json_of v settings "2026-05-01 (Friday)" req.text schema)
                ≡ ok body)
            × IsReply answering (request_of v settings body) raw
            × ((text : String) × Carries v raw text
                × ((text == "") ≡ false)
                × ((filter : FilterSpec small) × (◌≡◌ {A = Result (FilterSpec small)}
                      (ok march_calls)
                      (ok filter))
                    × ((subs : List Sub) × (resolve small source filter ≡ ok subs)
                        × ((k : SubKey)
                            → has_sub k.event k.symbol subs ≡ true
                            → has k (
                                registered
                                  (handle_nl_subscribe small accepting source text_body
                                    (build_llm_registry models ctx)
                                    request
                                    dropped).0)
                              ≡ true))))))
nl_subscribe_registers_example =
    nl_subscribe_registers models ctx accepting source text_body request dropped subscribes
