-- ===== src/Sinks/Delivery.antt =====
-- From the publications of the ingress to the rows of the sink: what NATS delivers on the subject
-- godxfeed.quote.> of what runIngressLoop has published.
use godxfeed.Common.{
  ℕ, suc, String, Bool, false, ◌&&◌, List, [], ◌∷◌, ◌++◌, if◌then◌else◌, ◌==◌, string_eq,
}
use godxfeed.Common.Outcome.{Result, ok, err}
use godxfeed.Common.Floats.{Floats}
use godxfeed.Ingress.{Publication}
use godxfeed.Sinks.{Quote, Row, parse_quote_insert}

-- `matches` tells which subjects the subscription is for, and `reaches` whether a publication, with
-- those before it, comes through, and at what time. The publications are the newest first, the
-- messages the oldest.
module _ (matches : String → Bool) (reaches : List Publication → Bool)
    (stamp : List Publication → ℕ) where
  abbrev pub delivered : List Publication → List (ℕ × String)
  delivered [] = []
  delivered (p ∷ ps) =
      let before = delivered ps in
      if p.accepted && matches p.subject && reaches (p ∷ ps)
      then before ++ ((stamp (p ∷ ps), p.payload) ∷ [])
      else before

-- How many rows the sink has stored for a symbol.
abbrev pub rows_of : {f : Floats} → String → List (Row f) → ℕ
rows_of sym [] = 0
rows_of sym (row ∷ rows) = let n = rows_of sym rows in if row.symbol == sym then suc n else n

module _ {f : Floats} (decode : String → Result (Quote f)) where
  -- Whether a message is a quote of the symbol.
  abbrev pub quotes_symbol : String → ℕ × String → Bool
  quotes_symbol sym (ts, payload) = elim (parse_quote_insert decode payload ts) [
    | ok row ↦ row.symbol == sym
    | err e ↦ false
  ]

  abbrev pub quotes_of : String → List (ℕ × String) → ℕ
  quotes_of sym [] = 0
  quotes_of sym (m ∷ ms) = let n = quotes_of sym ms in if quotes_symbol sym m then suc n else n
