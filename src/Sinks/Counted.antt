-- ===== src/Sinks/Counted.antt =====
-- The sink stores no more than the counters of the subscriptions have counted.
use mathlib.Core.Path.{subst, ap₂}
use godxfeed.Common.{
  ℕ, ◌+◌, ◌≤◌, ◌%◌, ◌^◌, String, ◌≡◌, refl, sym, ap, ◌∙◌, Bool, true, false, ◌&&◌, none, some, List,
  [], ◌∷◌, ◌++◌, arith, ◌==◌, string_eq, ==_sound, Bool-cases, inl, inr, All,
}
use godxfeed.Common.Dict.{lookup}
use godxfeed.Common.Outcome.{Error, Result, ok, err, Result-cases}
use godxfeed.Common.Text.{Unicode, to_lower, split}
use godxfeed.Common.Floats.{Floats}
use godxfeed.Dxclient.Message.{Message}
use godxfeed.Ingress.{FeedDecoder, Header, Publication, Loop, run_ingress_loop}
use godxfeed.Ingress.Faithful.{IsFaithfulPublication, run_ingress_loop-IsFaithfulPublication}
use godxfeed.Ingress.Laws.{IsCounted, accepted_of, run_ingress_loop-IsCounted}
use godxfeed.Sinks.{Quote, Row, parse_quote_insert, store_all, start}
use godxfeed.Sinks.Stored.{on_message_err, on_message_ok, row_of_quote}
use godxfeed.Sinks.Delivery.{delivered, rows_of, quotes_symbol, quotes_of}
use godxfeed.Subject.{subject_for}
use godxfeed.Subject.Scheme.{split-subject_for}
use godxfeed.Subscriptions.{SubKey, key_eq, SubState}

module _ {f : Floats} (decode : String → Result (Quote f)) where
  quotes_symbol_ok :
      (name payload : String) (ts : ℕ) (row : Row f)
      → parse_quote_insert decode payload ts ≡ ok row
      → quotes_symbol decode name (ts, payload) ≡ (row.symbol == name)
  quotes_symbol_ok name payload ts row h = rw (h, quotes_symbol) refl

  quotes_symbol_err :
      (name payload : String) (ts : ℕ) (e : Error)
      → parse_quote_insert decode payload ts ≡ err e
      → quotes_symbol decode name (ts, payload) ≡ false
  quotes_symbol_err name payload ts e h = rw (h, quotes_symbol) refl

  quotes_of-append :
      (name : String) (ms ns : List (ℕ × String))
      → quotes_of decode name (ms ++ ns) ≡ quotes_of decode name ms + quotes_of decode name ns
  quotes_of-append name [] ns = omega arith
  quotes_of-append name (m ∷ ms) ns = ground (arith, quotes_of-append name ms ns)

  rows_of-store_all :
      (inserts : List (Row f) → Row f → Bool) (name : String) (ms : List (ℕ × String))
      (rows : List (Row f))
      → rows_of name (store_all decode inserts ms rows)
        ≤ quotes_of decode name ms + rows_of name rows
  unfolding store_all
  rows_of-store_all inserts name [] rows = omega arith
  rows_of-store_all inserts name ((ts, payload) ∷ ms) rows =
      elim (Result-cases (parse_quote_insert decode payload ts)) [
        | inr (e, x) ↦
            rw (on_message_err decode inserts ts payload rows e x)
              (ground (arith, rows_of-store_all inserts name ms rows))
        | inl (row, x) ↦ elim (Bool-cases (inserts rows row)) [
          | inr refused ↦
              rw (on_message_ok decode inserts ts payload rows row x, refused)
                (ground (arith, rows_of-store_all inserts name ms rows))
          | inl taken ↦
              rw (on_message_ok decode inserts ts payload rows row x, taken)
                (ground (
                  arith,
                  rows_of-store_all inserts name ms (row ∷ rows),
                  quotes_symbol_ok name payload ts row x,
                ))
        ]
      ]

  -- The two fields that the ingress and the sink both read of an event are read the same.
  abbrev pub IsCoherent : FeedDecoder → Type 0
  IsCoherent decoder =
      (payload : String) (hdr : Header) (q : Quote f)
      → decoder.header payload ≡ ok hdr
      → decode payload ≡ ok q
      → (hdr.event_type ≡ q.event_type) × (hdr.event_symbol ≡ q.event_symbol)

-- What NATS says of the subject godxfeed.quote.>: it matches only subjects with these first tokens.
abbrev pub IsQuoteFilter : (String → Bool) → Type 0
IsQuoteFilter matches =
    (subject : String)
    → matches subject ≡ true
    → (rest : List String) × (split 46 subject ≡ "godxfeed" ∷ "quote" ∷ rest)

abbrev pub quote_key : String → SubKey
quote_key name = record { event = "Quote"; symbol = name }

empty_event_mismatch :
    ⦃u : Unicode⦄ (name : String) (rest : List String)
    → split 46 (subject_for "" name) ≡ "godxfeed" ∷ "quote" ∷ rest
    → ⊥
unfolding to_lower
empty_event_mismatch name rest h = let k = sym (split-subject_for "" name tt) ∙ h in cc k

module _ ⦃u : Unicode⦄ (decoder : FeedDecoder) {f : Floats} (decode : String → Result (Quote f))
    (coherent : IsCoherent decode decoder) (matches : String → Bool)
    (filter : IsQuoteFilter matches) where
  -- A publication that comes to the sink as a quote of a symbol was counted under that symbol.
  quote_is_counted :
      (p : Publication) (ts : ℕ) (row : Row f)
      → IsFaithfulPublication decoder p
      → matches p.subject ≡ true
      → parse_quote_insert decode p.payload ts ≡ ok row
      → p.key ≡ quote_key row.symbol
  unfolding parse_quote_insert
  quote_is_counted p ts row h m parsed = elim (row_of_quote decode ts p.payload row [] parsed) [
    | inr none_left ↦ absurd none_left
    | inl (q, decoded, kind, named, shape) ↦
        let (event, symbol) = coherent p.payload _ q h.header decoded in
        let (rest, tokens) = filter p.subject m in
        elim (Bool-cases (q.event_type == "")) [
          | inl blank ↦ absurd (
              empty_event_mismatch p.key.symbol rest (
                ap (λ e. split 46 (subject_for e p.key.symbol))
                  (sym (event ∙ ==_sound q.event_type "" blank))
                ∙ ap (split 46) (sym h.subject)
                ∙ tokens))
          | inr full ↦
              ap₂ (λ e n. record { event = e; symbol = n })
                (event ∙ ==_sound q.event_type "Quote" (ground (arith, kind, full)))
                (symbol ∙ sym (ap (λ r. r.symbol) shape))
        ]
  ]

  quotes_of-delivered :
      (reaches : List Publication → Bool) (stamp : List Publication → ℕ) (name : String)
      (ps : List Publication)
      → All (IsFaithfulPublication decoder) ps
      → quotes_of decode name (delivered matches reaches stamp ps) ≤ accepted_of (quote_key name) ps
  quotes_of-delivered reaches stamp name [] h = omega arith
  quotes_of-delivered reaches stamp name (p ∷ ps) (h, hs) =
      let rest = quotes_of-delivered reaches stamp name ps hs in
      elim (Bool-cases (p.accepted && matches p.subject && reaches (p ∷ ps))) [
        | inr lost ↦ rw lost (ground (arith, rest))
        | inl there ↦
            rw
              (
                there,
                quotes_of-append decode name (delivered matches reaches stamp ps)
                    ((stamp (p ∷ ps), p.payload) ∷ []),
              )
              (elim (Result-cases (parse_quote_insert decode p.payload (stamp (p ∷ ps)))) [
                | inr (e, x) ↦
                    ground
                      (arith, rest, quotes_symbol_err decode name p.payload (stamp (p ∷ ps)) e x)
                | inl (row, x) ↦
                    let key = quote_is_counted p (stamp (p ∷ ps)) row h (ground (arith, there)) x in
                    ground (
                      arith,
                      rest,
                      there,
                      ap (λ j. j == quote_key name) key,
                      quotes_symbol_ok decode name p.payload (stamp (p ∷ ps)) row x,
                    )
              ])
      ]

  -- For a sink on the subject godxfeed.quote.> of what the ingress publishes, whatever NATS takes of
  -- the publications, loses of them and delays, and whatever rows the database refuses: if the quotes
  -- of a symbol are registered before, their counter grows, modulo 2^64, by exactly the number of
  -- publications under the symbol that NATS took, and the sink stores no more rows of the symbol.
  pub stored_rows_counted :
      (publishes : List Publication → String → Bool) (tick : ℕ → ℕ)
      (reaches : List Publication → Bool) (stamp : List Publication → ℕ)
      (inserts : List (Row f) → Row f → Bool) (msgs : List Message) (l : Loop) (name : String)
      (base : ℕ) (rows : List (Row f))
      → l.published ≡ []
      → IsCounted (quote_key name) base l
      → start decode inserts none (
          delivered matches reaches stamp
            (run_ingress_loop publishes tick decoder msgs l).published)
        ≡ ok rows
      → (st : SubState) × (lookup
            (quote_key name)
            (run_ingress_loop publishes tick decoder msgs l).subs.state
          ≡ some st)
        × (st.msg_count
            ≡ (base
                + accepted_of
                    (quote_key name)
                    (run_ingress_loop publishes tick decoder msgs l).published)
              % 2 ^ 64)
        × (rows_of name rows
            ≤ accepted_of
                (quote_key name)
                (run_ingress_loop publishes tick decoder msgs l).published)
  unfolding start
  stored_rows_counted publishes tick reaches stamp inserts msgs l name base rows fresh counted
        done =
      let l' = run_ingress_loop publishes tick decoder msgs l in
      let c =
        run_ingress_loop-IsCounted publishes tick decoder (quote_key name) base msgs l counted in
      let faithful =
        run_ingress_loop-IsFaithfulPublication decoder publishes tick msgs l
          (subst (All (IsFaithfulPublication decoder)) (sym fresh) tt) in
      let ms = delivered matches reaches stamp l'.published in
      let same : store_all decode inserts ms [] ≡ rows = ground (arith, done) in
      (
        c.state,
        c.registered,
        c.counted,
        rw (← same) (
            omega (
              arith,
              rows_of-store_all decode inserts name ms [],
              quotes_of-delivered reaches stamp name l'.published faithful,
            )),
      )
