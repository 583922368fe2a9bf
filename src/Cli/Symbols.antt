-- ===== src/Cli/Symbols.antt =====
-- The symbols that the server is started with.
use godxfeed.Common.{
  ℕ, ◌≤◌, ◌<◌, String, ◌≡◌, refl, ◌⊎◌, true, false, List, [], ◌∷◌, arith, Bool-cases, inl, inr,
  ◌==◌, string_eq, length,
}
use godxfeed.Common.Int64.{two_63, two_64, signed_lt}
use godxfeed.Common.Outcome.{Error, Result, ok, err, context}
use godxfeed.Common.Text.{Unicode}
use godxfeed.Common.Floats.{Floats}
use godxfeed.Api.{Response, EquitySymbol}
use godxfeed.Cli.{Context, related_to_only, resolve_stream_symbols}
use godxfeed.Service.Symbols.{Rest, get_symbol_data, get_stream_symbols, n_related_options}
use godxfeed.Service.Symbols.Related.{get_stream_symbols_bound}

module _ (rest : Rest) ⦃u : Unicode⦄ (f : Floats) where
  context-eq-ok :
      {A : Type 0} (g : Error → Error) (m : Result A) {a : A} → context g m ≡ ok a → m ≡ ok a
  context-eq-ok g (ok a) h = h
  context-eq-ok g (err e) h = cc

  -- The one symbol of a list that n-related takes.
  only_symbol :
      (endpoint : String) (count : ℕ) (symbols out : List String)
      → related_to_only rest f endpoint count symbols ≡ ok out
      → (sym : String) × (symbols ≡ sym ∷ [])
        × (get_stream_symbols endpoint rest sym (n_related_options endpoint rest f count) ≡ ok out)
  unfolding related_to_only
  only_symbol endpoint count (sym ∷ []) out h = (sym, refl, context-eq-ok _ _ h)
  only_symbol endpoint count [] out h = cc
  only_symbol endpoint count (a ∷ b ∷ symbols) out h = cc

  nonnegative : (count : ℕ) → count < two_64 → signed_lt count 0 ≡ false → count < two_63
  unfolding signed_lt
  nonnegative count fits h = ground (arith, h)

  -- When the symbols resolve: the flag max-symbol-count is not negative; under n-related there is one
  -- symbol, the first of the result is the streamer symbol that tastytrade sent for it as an equity,
  -- and what follows are its related options, at most max-symbol-count of them; under any other
  -- method the result is the flag's symbols, however many.
  pub resolve_stream_symbols_bound :
      (ctx : Context) (out : List String)
      → ctx.int "max-symbol-count" < two_64
      → resolve_stream_symbols rest f ctx ≡ ok out
      → (ctx.int "max-symbol-count" < two_63)
        × ((((ctx.string "symbol-method" == "n-related") ≡ true)
              × ((sym : String) × (twr : Response) × (eq : EquitySymbol) × (relateds : List String)
                  × (ctx.string_slice "symbols" ≡ sym ∷ [])
                  × (get_symbol_data (ctx.string "tastyworks-endpoint") rest sym "equities"
                      ≡ ok twr)
                  × (rest.equity twr.data_text ≡ ok eq)
                  × (out ≡ eq.streamer_symbol ∷ relateds)
                  × (n_related_options
                        (ctx.string "tastyworks-endpoint")
                        rest
                        f
                        (ctx.int "max-symbol-count")
                        sym
                      ≡ ok relateds)
                  × (length relateds ≤ ctx.int "max-symbol-count")))
            ⊎ (((ctx.string "symbol-method" == "n-related") ≡ false)
                × (out ≡ ctx.string_slice "symbols")))
  unfolding resolve_stream_symbols
  resolve_stream_symbols_bound ctx out fits h =
      elim (Bool-cases (signed_lt (ctx.int "max-symbol-count") 0)) [
        | inl e ↦ absurd (ground (arith, e, h))
        | inr e ↦
            let small = nonnegative (ctx.int "max-symbol-count") fits e in
            elim (Bool-cases (ctx.string "symbol-method" == "n-related")) [
              | inr other ↦ (small, inr (other, ground (arith, e, other, h)))
              | inl related ↦
                  let (sym, one, got) =
                    only_symbol (ctx.string "tastyworks-endpoint") (ctx.int "max-symbol-count")
                      (ctx.string_slice "symbols") out (ground (arith, e, related, h)) in
                  let (twr, eq, relateds, sent, read, shape, from, bound) =
                    get_stream_symbols_bound (ctx.string "tastyworks-endpoint") rest f
                      (ctx.int "max-symbol-count") sym out small got in
                  (
                    small,
                    inl (related, (sym, twr, eq, relateds, one, sent, read, shape, from, bound)),
                  )
            ]
      ]
