-- ===== src/Dxclient/Event.antt =====
-- dxclient/event.go: the names of the event types, and the structs of the events. `D` stands for
-- decimal.Decimal; an int64 is its bit pattern.
pub mod Quotes
pub mod Options
pub mod Orders
use godxfeed.Common.{ℕ, String, List, [], ◌∷◌}

-- GetFeedEvents
abbrev pub get_feed_events : List String
get_feed_events =
    "Message" ∷ "Quote" ∷ "Profile" ∷ "Greeks" ∷ "Summary" ∷ "Candle" ∷ "TheoPrice" ∷ "Underlying"
    ∷ "Configuration" ∷ "OptionSale" ∷ "Series" ∷ "TimeAndSale" ∷ "Trade" ∷ "TradeETH" ∷ "Order"
    ∷ "SpreadOrder" ∷ "AnalyticOrder" ∷ []

pub record EventMessage : Type 0 where
  pub event_type : String
  pub event_symbol : String
  pub event_time : ℕ
  pub attachment : String

pub record EventConfiguration : Type 0 where
  pub event_type : String
  pub event_symbol : String
  pub event_time : ℕ
  pub version : ℕ
  pub attachment : String
