-- ===== src/Examples/Sinks.antt =====
-- Witness of the theorem on what the sink stores.
use godxfeed.Common.{
  ℕ, String, ◌≡◌, refl, Bool, not, none, List, [], ◌∷◌, All, ◌==◌, string_eq, if◌then◌else◌, select,
}
use godxfeed.Common.Outcome.{Result, ok, err, opaque}
use godxfeed.Sinks.{Quote, Row, start}
use godxfeed.Sinks.Stored.{IsQuoteOf, is_quote, start_stores_quotes}
use godxfeed.Subscriptions.{key_eq}
use godxfeed.Examples.{ascii_only}
use godxfeed.Examples.Resolver.{small}

-- A text stands for a quote of itself.
abbrev decode : String → Result (Quote small)
decode text =
    if text == ""
    then err (opaque 1)
    else ok (record {
      event_type = "Quote";
      event_symbol = text;
      bid_price = 1;
      ask_price = 2;
      bid_size = 3;
      ask_size = 4;
    })

-- A database that refuses one symbol.
abbrev takes : List (Row small) → Row small → Bool
takes rows row = not (row.symbol == "SPY")

abbrev arrived : List (ℕ × String)
arrived = (7, "") ∷ (8, "SPY") ∷ (9, "QQQ") ∷ []

abbrev stored : List (Row small)
stored =
    record { symbol = "QQQ"; ts = 9; bid_price = 1; bid_size = 3; ask_price = 2; ask_size = 4 } ∷ []

stores : start decode takes none arrived ≡ ok stored
unfolding start
stores = refl

start_stores_quotes_example :
    All (IsQuoteOf decode arrived) stored
    × (start decode takes none (select (is_quote decode) arrived) ≡ ok stored)
start_stores_quotes_example = start_stores_quotes decode takes arrived stored stores
