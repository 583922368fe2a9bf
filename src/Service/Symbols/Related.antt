-- ===== src/Service/Symbols/Related.antt =====
-- What the symbol methods return.
use mathlib.Core.List.{Permᴰ}
use mathlib.Core.Path.{subst}
use godxfeed.Common.{
  ℕ, zero, suc, ◌≤◌, ◌<◌, String, ◌≡◌, ap, List, [], ◌∷◌, map, ltb, length, take, if◌then◌else◌,
  arith, Bool-cases, inl, inr,
}
use godxfeed.Common.Outcome.{Error, Result, ok, err, >>=-eq-ok, context, Result-cases}
use godxfeed.Common.Text.{Unicode}
use godxfeed.Common.Sort.{sort_slice}
use godxfeed.Common.Sort.Laws.{sort_slice-perm}
use godxfeed.Common.Int64.{signed_lt, two_63}
use godxfeed.Common.Floats.{Floats}
use godxfeed.Api.{Response, OptionSymbol, EquitySymbol}
use godxfeed.Service.Symbols.{
  Rest, get_symbol_data, related_less, get_related_option_symbols, n_related_options,
  get_stream_symbols,
}

context-eq-ok {ℓ} :
    {A : Type ℓ} (g : Error → Error) (m : Result A) {a : A} → context g m ≡ ok a → m ≡ ok a
context-eq-ok g (ok a) h = h
context-eq-ok g (err e) h = cc

map-Permᴰ :
    {xs ys : List OptionSymbol}
    → Permᴰ xs ys
    → Permᴰ (map (λ o. o.streamer_symbol) xs) (map (λ o. o.streamer_symbol) ys)
map-Permᴰ Permᴰ.nil = Permᴰ.nil
map-Permᴰ (Permᴰ.cons e d) = Permᴰ.cons (ap (λ o. o.streamer_symbol) e) (map-Permᴰ d)
map-Permᴰ (Permᴰ.swap e₁ e₂) =
    Permᴰ.swap (ap (λ o. o.streamer_symbol) e₁) (ap (λ o. o.streamer_symbol) e₂)
map-Permᴰ (Permᴰ.trans d₁ d₂) = Permᴰ.trans (map-Permᴰ d₁) (map-Permᴰ d₂)

length-take_le : (n : ℕ) (xs : List String) → length (take n xs) ≤ n
length-take_le zero xs = omega arith
length-take_le (suc n) [] = omega arith
length-take_le (suc n) (x ∷ xs) = omega (arith, length-take_le n xs)

module _ (endpoint : String) (rest : Rest) ⦃u : Unicode⦄ (f : Floats) where
  -- GetRelatedOptionSymbols returns the streamer symbols of the chain that tastytrade sent, each as
  -- often as it is there.
  get_related_option_symbols-perm :
      (symbol : String) (syms : List String)
      → get_related_option_symbols endpoint rest f symbol ≡ ok syms
      → (twr : Response) × (items : List OptionSymbol) × (get_symbol_data endpoint rest symbol
            "options"
          ≡ ok twr)
        × (rest.options twr.data_text ≡ ok items)
        × Permᴰ syms (map (λ o. o.streamer_symbol) items)
  unfolding get_related_option_symbols
  get_related_option_symbols-perm symbol syms done =
      let (twr, a, more) =
        >>=-eq-ok (context _ (get_symbol_data endpoint rest symbol "options")) _ done in
      let (items, b, last) = >>=-eq-ok (context _ (rest.options twr.data_text)) _ more in
      let q : map (λ o. o.streamer_symbol) (sort_slice (related_less f) items) ≡ syms =
        ground (arith, last) in
      (
        twr,
        items,
        context-eq-ok _ (get_symbol_data endpoint rest symbol "options") a,
        context-eq-ok _ (rest.options twr.data_text) b,
        subst (λ z. Permᴰ z (map (λ o. o.streamer_symbol) items)) q
            (map-Permᴰ (sort_slice-perm (related_less f) items)),
      )

  n_related_bound :
      (n : ℕ) (symbol : String) (out : List String)
      → n < two_63
      → n_related_options endpoint rest f n symbol ≡ ok out
      → length out ≤ n
  unfolding n_related_options signed_lt
  n_related_bound n symbol out small done = elim (Bool-cases (signed_lt n 1)) [
    | inl e ↦
        let q : [] ≡ out = ground (arith, e, done) in subst (λ z. length z ≤ n) q (omega arith)
    | inr e ↦ elim (Result-cases (get_related_option_symbols endpoint rest f symbol)) [
      | inr (x, g) ↦ absurd (ground (arith, e, g, done))
      | inl (syms, g) ↦
          let q : (if ltb (length syms) n then syms else take n syms) ≡ out =
            ground (arith, e, g, done) in
          subst (λ z. length z ≤ n) q (ground (arith, length-take_le n syms))
    ]
  ]

  -- GetStreamSymbols for the first n related options, n below 2^63, returns the symbol of the
  -- underlying first, as tastytrade sent it, and at most n symbols after it.
  pub get_stream_symbols_bound :
      (n : ℕ) (symbol : String) (out : List String)
      → n < two_63
      → get_stream_symbols endpoint rest symbol (n_related_options endpoint rest f n) ≡ ok out
      → (twr : Response) × (eq : EquitySymbol) × (relateds : List String) × (get_symbol_data
            endpoint rest symbol "equities"
          ≡ ok twr)
        × (rest.equity twr.data_text ≡ ok eq)
        × (out ≡ eq.streamer_symbol ∷ relateds)
        × (n_related_options endpoint rest f n symbol ≡ ok relateds)
        × (length relateds ≤ n)
  unfolding get_stream_symbols
  get_stream_symbols_bound n symbol out small done =
      let (twr, a, more) =
        >>=-eq-ok (context _ (get_symbol_data endpoint rest symbol "equities")) _ done in
      let (eq, b, more') = >>=-eq-ok (context _ (rest.equity twr.data_text)) _ more in
      let (relateds, c, last) =
        >>=-eq-ok (context _ (n_related_options endpoint rest f n symbol)) _ more' in
      let c' = context-eq-ok _ (n_related_options endpoint rest f n symbol) c in
      (
        twr,
        eq,
        relateds,
        context-eq-ok _ (get_symbol_data endpoint rest symbol "equities") a,
        context-eq-ok _ (rest.equity twr.data_text) b,
        ground (arith, last),
        c',
        n_related_bound n symbol relateds small c',
      )
