-- ===== src/Sinks/Stored.antt =====
-- What the Timescale sink stores.
use godxfeed.Common.{
  ℕ, String, ◌≡◌, refl, ◌⊎◌, inl, inr, Bool, true, false, ◌||◌, none, List, [], ◌∷◌, arith,
  if◌then◌else◌, ◌==◌, string_eq, select, Bool-cases, All,
}
use godxfeed.Common.Outcome.{Error, Result, ok, err, is_ok, Result-cases}
use godxfeed.Common.Floats.{Floats}
use godxfeed.Sinks.{Quote, Row, parse_quote_insert, on_message, store_all, start}

module _ {f : Floats} (decode : String → Result (Quote f)) where
  -- The row is the quote of one of the messages, at the time that it came.
  abbrev pub IsQuoteOf : List (ℕ × String) → Row f → Type 0
  IsQuoteOf [] row = ⊥
  IsQuoteOf ((ts, payload) ∷ ms) row =
      ((q : Quote f) × (decode payload ≡ ok q)
        × ((q.event_type == "" || q.event_type == "Quote") ≡ true)
        × ((q.event_symbol == "") ≡ false)
        × (row ≡ record {
          symbol = q.event_symbol;
          ts = ts;
          bid_price = q.bid_price;
          bid_size = q.bid_size;
          ask_price = q.ask_price;
          ask_size = q.ask_size;
        }))
      ⊎ IsQuoteOf ms row

  abbrev pub is_quote : ℕ × String → Bool
  is_quote (ts, payload) = is_ok (parse_quote_insert decode payload ts)

  pub row_of_quote :
      (ts : ℕ) (payload : String) (row : Row f) (ms : List (ℕ × String))
      → parse_quote_insert decode payload ts ≡ ok row
      → IsQuoteOf ((ts, payload) ∷ ms) row
  unfolding parse_quote_insert
  row_of_quote ts payload row ms h = elim (Result-cases (decode payload)) [
    | inr (e, x) ↦ absurd (ground (arith, h, x))
    | inl (q, x) ↦ inl (q, x, ground (arith, h, x), ground (arith, h, x), ground (arith, h, x))
  ]

  module _ (inserts : List (Row f) → Row f → Bool) where
    pub on_message_err :
        (ts : ℕ) (payload : String) (rows : List (Row f)) (e : Error)
        → parse_quote_insert decode payload ts ≡ err e
        → on_message decode inserts (ts, payload) rows ≡ rows
    unfolding on_message
    on_message_err ts payload rows e h = rw (h, on_message) refl

    pub on_message_ok :
        (ts : ℕ) (payload : String) (rows : List (Row f)) (row : Row f)
        → parse_quote_insert decode payload ts ≡ ok row
        → on_message decode inserts (ts, payload) rows
          ≡ (if inserts rows row then row ∷ rows else rows)
    unfolding on_message
    on_message_ok ts payload rows row h = rw (h, on_message) refl

    -- What holds of the rows so far and of every quote of the messages holds of the rows at the end.
    store_all-All {κ} :
        (P : Row f → Type κ) (ms : List (ℕ × String)) (rows : List (Row f))
        → All P rows
        → ((row : Row f) → IsQuoteOf ms row → P row)
        → All P (store_all decode inserts ms rows)
    unfolding store_all
    store_all-All P [] rows h new = h
    store_all-All P ((ts, payload) ∷ ms) rows h new =
        elim (Result-cases (parse_quote_insert decode payload ts)) [
          | inr (e, x) ↦
              rw (on_message_err ts payload rows e x)
                (store_all-All P ms rows h (λ row q. new row (inr q)))
          | inl (row, x) ↦ elim (Bool-cases (inserts rows row)) [
            | inr refused ↦
                rw (on_message_ok ts payload rows row x, refused)
                  (store_all-All P ms rows h (λ row q. new row (inr q)))
            | inl taken ↦
                rw (on_message_ok ts payload rows row x, taken)
                  (store_all-All P ms (row ∷ rows) (new row (row_of_quote ts payload row ms x), h)
                    (λ row q. new row (inr q)))
          ]
        ]

    store_all-select :
        (ms : List (ℕ × String)) (rows : List (Row f))
        → store_all decode inserts (select is_quote ms) rows ≡ store_all decode inserts ms rows
    unfolding store_all
    store_all-select [] rows = refl
    store_all-select ((ts, payload) ∷ ms) rows =
        elim (Result-cases (parse_quote_insert decode payload ts)) [
          | inr (e, x) ↦ rw (x, on_message_err ts payload rows e x) (store_all-select ms rows)
          | inl (row, x) ↦
              rw (x) (store_all-select ms (on_message decode inserts (ts, payload) rows))
        ]

    -- Whatever comes on the subject and whatever the database refuses: every row that the sink stores
    -- is the quote of a message, with the time at which it came; and the messages that are no quotes
    -- change nothing, the sink stores what it would store without them.
    pub start_stores_quotes :
        (ms : List (ℕ × String)) (rows : List (Row f))
        → start decode inserts none ms ≡ ok rows
        → All (IsQuoteOf ms) rows × (start decode inserts none (select is_quote ms) ≡ ok rows)
    unfolding start
    start_stores_quotes ms rows h =
        let same : store_all decode inserts ms [] ≡ rows = ground (arith, h) in
        (
          rw (← same) (store_all-All (IsQuoteOf ms) ms [] tt (λ row q. q)),
          rw (store_all-select ms []) h,
        )
