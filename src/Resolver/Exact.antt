-- ===== src/Resolver/Exact.antt =====
-- The subscriptions that a filter resolves to are exactly those that it asks for.
use mathlib.Core.List.{Permᴰ}
use mathlib.Core.Path.{subst}
use godxfeed.Common.{
  ℕ, String, ◌≡◌, Bool, false, not, ◌&&◌, ◌||◌, Option, none, List, ◌==◌, string_eq, select, exists,
  arith, Option-cases, inl, inr,
}
use godxfeed.Common.Outcome.{Result, ok, err, >>=-eq-ok}
use godxfeed.Common.Sort.{sort_slice}
use godxfeed.Common.Sort.Laws.{sort_slice-perm}
use godxfeed.Common.Floats.{Floats}
use godxfeed.Api.{OptionSymbol}
use godxfeed.Resolver.Passes.{passes}
use godxfeed.Resolver.{
  FilterSpec, Sub, SymbologySource, expiry_bounds, strike_checked, keeps, option_less,
  filter_options, wants_options,
}

-- A (event, symbol) pair is in a list.
abbrev pub has_sub : String → String → List Sub → Bool
has_sub e s subs = exists (λ x. x.event == e && x.symbol == s) subs

-- A call returned a value that passes a test.
abbrev pub returned {ℓ} : {A : Type ℓ} → (A → Bool) → Result A → Bool
returned p (ok a) = p a
returned p (err e) = false

module _ (f : Floats) where
  -- filterOptions returns a rearrangement of the options that pass its tests.
  pub filter_options-perm :
      (opts : List OptionSymbol) (spec : FilterSpec f) (out : List OptionSymbol)
      → filter_options f opts spec ≡ ok out
      → (bounds : Option (ℕ × ℕ)) × (expiry_bounds spec.expiry_window ≡ ok bounds)
        × (strike_checked f spec.strike_window ≡ none)
        × Permᴰ out (select (keeps f spec bounds) opts)
  unfolding filter_options
  filter_options-perm opts spec out done =
      let (bounds, e, rest) = >>=-eq-ok (expiry_bounds spec.expiry_window) _ done in
      elim (Option-cases (strike_checked f spec.strike_window)) [
        | inr (x, g) ↦ absurd (ground (arith, g, rest))
        | inl g ↦ (
          bounds,
          e,
          g,
          let q : sort_slice (option_less f) (select (keeps f spec bounds) opts) ≡ out =
                ground (arith, g, rest) in
              subst (λ z. Permᴰ z (select (keeps f spec bounds) opts)) q
                (sort_slice-perm (option_less f) (select (keeps f spec bounds) opts)),
        )
      ]

  module _ (source : SymbologySource) where
    -- The filter asks for the symbol of the underlying.
    unfoldable pub asks_equity : FilterSpec f → String → Bool
    asks_equity spec s =
        (spec.include_equity || not (wants_options f spec))
        && returned (λ t. t == s) (source.equity_streamer_symbol spec.root)

    -- The filter asks for options, by a kind or a window, and lets one through that has the symbol.
    unfoldable pub asks_option : FilterSpec f → String → Bool
    asks_option spec s =
        wants_options f spec
        && returned (exists (λ o. passes f spec o && o.streamer_symbol == s))
            (source.option_symbols spec.root)
