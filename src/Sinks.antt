-- ===== src/Sinks.antt =====
-- service/analytics/sink.go and timescale.go: the registry of sinks, and the sink that stores quotes;
-- and EnsureQuotesStream of service/jetstream.go. The database, NATS and net/url are parameters.
pub mod Stored
pub mod Delivery
pub mod Counted
use godxfeed.Common.{
  ℕ, String, Bool, true, false, not, ◌&&◌, Option, none, some, List, [], ◌∷◌, map, if◌then◌else◌,
  ◌==◌, string_eq,
}
use godxfeed.Common.Dict.{Dict, lookup, insert, has}
use godxfeed.Common.Outcome.{Error, Result, ok, err, fail, wrap, str, ◌>>=◌, context}
use godxfeed.Common.Sort.{sort_slice}
use godxfeed.Common.Text.{str_lt}
use godxfeed.Common.Floats.{Floats}

-- The parts of a Quote event that the sink reads.
pub record Quote (f : Floats) : Type 0 where
  pub event_type : String
  pub event_symbol : String
  pub bid_price : f.F
  pub ask_price : f.F
  pub bid_size : f.F
  pub ask_size : f.F

-- dbgen.InsertSymbolDataParams, with its time in nanoseconds.
pub record Row (f : Floats) : Type 0 where
  pub symbol : String
  pub ts : ℕ
  pub bid_price : f.F
  pub bid_size : f.F
  pub ask_price : f.F
  pub ask_size : f.F

-- `decode` is json.Unmarshal into a quote.
module _ {f : Floats} (decode : String → Result (Quote f)) where
  unfoldable pub parse_quote_insert : String → ℕ → Result (Row f)
  parse_quote_insert payload ts = context (wrap "parse quote: %w" []) (decode payload) >>= λ q.
      (if not (q.event_type == "") && not (q.event_type == "Quote")
        then err (fail "not a Quote event (got %q)" (str q.event_type ∷ []))
        else if q.event_symbol == ""
        then err (fail "missing eventSymbol" [])
        else ok (record {
          symbol = q.event_symbol;
          ts = ts;
          bid_price = q.bid_price;
          bid_size = q.bid_size;
          ask_price = q.ask_price;
          ask_size = q.ask_size;
        }))

  -- `inserts` tells whether the database takes a row, after the rows that it has taken.
  module _ (inserts : List (Row f) → Row f → Bool) where
    -- The callback of Start, at the time `ts`. The rows are the newest first.
    unfoldable pub on_message : ℕ × String → List (Row f) → List (Row f)
    unfolding parse_quote_insert
    on_message (ts, payload) rows = elim (parse_quote_insert payload ts) [
      | err e ↦ rows
      | ok row ↦ if inserts rows row then row ∷ rows else rows
    ]

    -- Start: the subscription, and the messages that come until its context is done.
    unfoldable pub store_all : List (ℕ × String) → List (Row f) → List (Row f)
    unfolding on_message
    store_all [] rows = rows
    store_all (m ∷ ms) rows = store_all ms (on_message m rows)

    unfoldable pub start : Option Error → List (ℕ × String) → Result (List (Row f))
    unfolding store_all
    start subscribed ms = elim subscribed [
      | some e ↦ err (wrap "timescale sink: subscribe: %w" [] e)
      | none ↦ ok (store_all ms [])
    ]

-- A sink that was made, by its name and its DSN.
pub record Sink : Type 0 where
  pub name : String
  pub dsn : String

-- A factory at the connection to NATS, by the DSN.
abbrev pub Factory : Type 0
Factory = String → Result Sink

-- newTimescaleSink: whether there is a connection to NATS, pgxpool.New and Ping.
unfoldable pub new_timescale_sink :
    Bool → (String → Option Error) → (String → Option Error) → Factory
new_timescale_sink has_nats new_pool ping dsn =
    if not has_nats
    then err (fail "timescale sink: nats connection is required" [])
    else elim (new_pool dsn) [
      | some e ↦ err (wrap "timescale sink: pgxpool: %w" [] e)
      | none ↦ elim (ping dsn) [
        | some e ↦ err (wrap "timescale sink: ping: %w" [] e)
        | none ↦ ok (record { name = "timescale"; dsn = dsn })
      ]
    ]

-- RegisterSink; `none` is its panic.
unfoldable pub register_sink : String → Factory → Dict String Factory → Option (Dict String Factory)
register_sink scheme f registry =
    if has scheme registry then none else some (insert scheme f registry)

-- The registry after the package is initialized.
unfoldable pub initialized : Factory → Option (Dict String Factory)
unfolding register_sink
initialized f = elim (register_sink "postgres" f []) [
  | none ↦ none
  | some registry ↦ register_sink "postgresql" f registry
]

abbrev schemes_of : Dict String Factory → List String
schemes_of [] = []
schemes_of ((scheme, f) ∷ registry) = scheme ∷ schemes_of registry

unfoldable pub registered_schemes : Dict String Factory → List String
registered_schemes registry = sort_slice str_lt (schemes_of registry)

-- Build; `scheme_of` is the scheme that url.Parse finds.
unfoldable pub build : (String → Result String) → Dict String Factory → Factory
unfolding registered_schemes
build scheme_of registry dsn =
    context (wrap "analytics: parse DSN %q: %w" (str dsn ∷ [])) (scheme_of dsn) >>= λ scheme.
    (if scheme == ""
      then err
          (fail "analytics: DSN %q has no scheme (expected e.g. postgres://...)" (str dsn ∷ []))
      else elim (lookup scheme registry) [
        | none ↦ err (
            fail "analytics: no sink registered for scheme %q (known: %v)"
              (str scheme ∷ map str (registered_schemes registry)))
        | some f ↦ f dsn
      ])

-- EnsureQuotesStream: jetstream.New and CreateOrUpdateStream.
unfoldable pub ensure_quotes_stream : Option Error → Option Error → Option Error
ensure_quotes_stream (some e) updated = some (wrap "jetstream context: %w" [] e)
ensure_quotes_stream none (some e) = some (wrap "create/update stream %s: %w" (str "QUOTES" ∷ []) e)
ensure_quotes_stream none none = none
