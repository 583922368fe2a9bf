-- ===== src/Examples.antt =====
-- The values that the witnesses of the theorems are about. Each child has the witnesses of one part.
mod Subscriptions
mod Client
mod Ingress
mod Service
mod Tokens
mod Resolver
mod Http
mod Access
mod Models
mod Concurrency
mod Startup
mod Sinks
use godxfeed.Common.{ℕ, String, true, Option, none, some, List, [], ◌∷◌}
use godxfeed.Common.Text.{Unicode}
use godxfeed.Subscriptions.{SubKey, FeedSub, FeedController, Manager, SubState}

-- A Unicode whose letters beyond ASCII have one case.
instance abbrev pub ascii_only : Unicode
ascii_only = record { lower = λ c. c; upper = λ c. c }

abbrev pub accepting : FeedController
accepting sent fc add remove = none

abbrev pub spy_quote : SubKey
spy_quote = record { event = "Quote"; symbol = "SPY" }

abbrev pub spy_greeks : SubKey
spy_greeks = record { event = "Greeks"; symbol = "SPY" }

abbrev pub aapl_quote : FeedSub
aapl_quote = record { event = "Quote"; symbol = "AAPL" }

abbrev pub aapl_greeks : FeedSub
aapl_greeks = record { event = "Greeks"; symbol = "AAPL" }

abbrev pub seen_twice : SubState
seen_twice = record {
  subject = "godxfeed.quote.SPY";
  msg_count = 2;
  first_seen_at = 7;
  last_seen_at = 9;
}

-- A manager of connection 1 with one subscription, which it sent.
abbrev pub with_spy : Manager
with_spy = record {
  fc = 1;
  state = (spy_quote, seen_twice) ∷ [];
  sent =
      record {
        client = 1;
        add = record { event = "Quote"; symbol = "SPY" } ∷ [];
        remove = [];
        accepted = true;
      }
      ∷ [];
}
