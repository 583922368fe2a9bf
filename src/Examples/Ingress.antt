-- ===== src/Examples/Ingress.antt =====
-- Witnesses of the theorems on the ingress.
use godxfeed.Common.{
  ◌≤◌, ◌+◌, ◌%◌, ◌^◌, ap, true, none, some, arith, ==_sound, is_empty, String, ◌≡◌, ◌⊎◌, refl, Bool,
  List, [], ◌∷◌, ◌==◌, string_eq, if◌then◌else◌,
}
use godxfeed.Common.Dict.{lookup}
use godxfeed.Common.Outcome.{Result, ok, err, fail}
use godxfeed.Dxclient.Message.{Message, feed_data}
use godxfeed.Dxclient.Client.Calls.{base}
use godxfeed.Ingress.{
  FeedEvent, FeedDecoder, Publication, Loop, parse_feed_data, run_ingress_loop, sanitize,
}
use godxfeed.Ingress.Laws.{
  accepted_of, Describes, IsCounted, parse_feed_data_sound, run_ingress_loop-IsCounted,
}
use godxfeed.Common.Text.{to_lower, split}
use godxfeed.Subject.{subject_for}
use godxfeed.Sinks.{Quote, Row, start}
use godxfeed.Sinks.Delivery.{delivered}
use godxfeed.Sinks.Counted.{IsCoherent, IsQuoteFilter, stored_rows_counted}
use godxfeed.Subscriptions.{key_eq, SubState}
use godxfeed.Examples.Resolver.{small}
use godxfeed.Examples.{ascii_only, spy_quote, seen_twice, with_spy}

-- A decoder that knows one array, of an event for SPY and of one without a symbol.
abbrev decoder : FeedDecoder
decoder = record {
  array = λ text. if text == "[A,B]" then ok ("A" ∷ "B" ∷ []) else err (fail "no array" []);
  header =
      λ raw. ok (record { event_type = "Quote"; event_symbol = if raw == "A" then "SPY" else "" });
}

abbrev events : List FeedEvent
events =
    record { subject = "godxfeed.quote.SPY"; payload = "A"; event = "Quote"; symbol = "SPY" } ∷ []

parse_feed_data_sound_example :
    ((◌≡◌ {A = String} "[A,B]" "") × (events ≡ []))
    ⊎ ((raws : List String) × (decoder.array (sanitize "[A,B]") ≡ ok raws)
        × Describes decoder raws events)
unfolding parse_feed_data subject_for to_lower
parse_feed_data_sound_example = parse_feed_data_sound decoder "[A,B]" events refl

abbrev quotes_only : List Publication → String → Bool
quotes_only published subject = subject == "godxfeed.quote.SPY"

abbrev before : Loop
before = record { subs = with_spy; published = []; clock = 20 }

abbrev messages : List Message
messages =
    feed_data (base "FEED_DATA" 1) "[A,B]"
    ∷ feed_data (base "FEED_DATA" 1) "garbled"
    ∷ feed_data (base "FEED_DATA" 1) "[A,B]"
    ∷ []

run_ingress_loop-IsCounted_example :
    IsCounted spy_quote 2 (run_ingress_loop quotes_only (λ t. t) decoder messages before)
unfolding lookup
run_ingress_loop-IsCounted_example =
    run_ingress_loop-IsCounted quotes_only (λ t. t) decoder spy_quote 2 messages before
      (record { state = seen_twice; registered = refl; counted = refl })

-- The sink reads the same two fields.
abbrev decode_quote : String → Result (Quote small)
decode_quote raw = ok (record {
  event_type = "Quote";
  event_symbol = if raw == "A" then "SPY" else "";
  bid_price = 1;
  ask_price = 2;
  bid_size = 3;
  ask_size = 4;
})

decode_quote-IsCoherent : IsCoherent decode_quote decoder
decode_quote-IsCoherent payload hdr q h d = (ground (arith, h, d), ground (arith, h, d))

abbrev spy_only : String → Bool
spy_only subject = subject == "godxfeed.quote.SPY"

spy_only-IsQuoteFilter : IsQuoteFilter spy_only
unfolding split
spy_only-IsQuoteFilter subject h =
    ("SPY" ∷ [], ap (split 46) (==_sound subject "godxfeed.quote.SPY" h))

-- Both quotes come through; the database takes one.
abbrev one_row : List (Row small)
one_row =
    record { symbol = "SPY"; ts = 7; bid_price = 1; bid_size = 3; ask_price = 2; ask_size = 4 } ∷ []

stored_one :
    start decode_quote
      (λ rows row. is_empty rows)
      none
      (delivered spy_only
        (λ ps. true)
        (λ ps. 7)
        (run_ingress_loop quotes_only (λ t. t) decoder messages before).published)
    ≡ ok one_row
unfolding start run_ingress_loop parse_feed_data sanitize subject_for to_lower
stored_one = refl

stored_rows_counted_example :
    (st : SubState) × (lookup spy_quote
        (run_ingress_loop quotes_only (λ t. t) decoder messages before).subs.state
      ≡ some st)
    × (st.msg_count
        ≡ (2
            + accepted_of spy_quote
                (run_ingress_loop quotes_only (λ t. t) decoder messages before).published)
          % 2 ^ 64)
    × (1
        ≤ accepted_of spy_quote
            (run_ingress_loop quotes_only (λ t. t) decoder messages before).published)
unfolding lookup
stored_rows_counted_example =
    stored_rows_counted decoder decode_quote decode_quote-IsCoherent spy_only spy_only-IsQuoteFilter
      quotes_only (λ t. t) (λ ps. true) (λ ps. 7) (λ rows row. is_empty rows) messages before "SPY"
      2 one_row refl (record { state = seen_twice; registered = refl; counted = refl }) stored_one
