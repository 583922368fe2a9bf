-- ===== src/Resolver/Passes.antt =====
-- Which options a filter lets through, by its kind, its window of days and its range of strikes.
use mathlib.Core.Path.{subst}
use godxfeed.Common.{
  if◌then◌else◌, leb, is_some, some, true, ==_sound, ℕ, String, ◌≡◌, refl, sym, Bool, false, not,
  ◌&&◌, ◌||◌, Option, none, ◌==◌, string_eq, arith, Bool-cases, inl, inr,
}
use godxfeed.Common.Outcome.{ok}
use godxfeed.Common.Text.{equal_fold}
use godxfeed.Common.Floats.{Floats}
use godxfeed.Api.{OptionSymbol}
use godxfeed.Common.Dates.{parse_date}
use godxfeed.Resolver.{
  DateWindow, Range, match_kind, in_expiry, in_strike, FilterSpec, expiry_bounds, keeps,
}

-- Whether an option type is a call's, or a put's, in any case.
abbrev pub is_call : String → Bool
is_call t = equal_fold t "C" || equal_fold t "call"

abbrev pub is_put : String → Bool
is_put t = equal_fold t "P" || equal_fold t "put"

-- A kind asks for calls, for puts, or for both, as both and the empty kind do.
unfoldable pub of_kind : String → String → Bool
of_kind kind t =
    if kind == "call"
    then is_call t
    else if kind == "put"
    then is_put t
    else kind == "" || kind == "both"

-- The day is in the window, whose ends count.
abbrev pub between_days : Option ℕ → Option ℕ → Option ℕ → Bool
between_days (some low) (some day) (some high) = leb low day && leb day high
between_days _ _ _ = false

unfoldable pub expires_in : Option DateWindow → String → Bool
expires_in none expiry = true
expires_in (some w) expiry = between_days (parse_date w.min) (parse_date expiry) (parse_date w.max)

module _ (f : Floats) where
  -- The strike is a number in the range, whose ends count.
  unfoldable pub strikes_in : Option (Range f) → String → Bool
  strikes_in none strike = true
  strikes_in (some r) strike =
      not (is_some (f.parse strike).1)
      && (not (f.less (f.parse strike).0 r.min) && not (f.less r.max (f.parse strike).0))

  -- The filter lets the option through: it has the kind, expires in the window, has its strike in the
  -- range, and has a streamer symbol.
  unfoldable pub passes : FilterSpec f → OptionSymbol → Bool
  passes spec o =
      not (o.streamer_symbol == "")
      && (of_kind spec.kind o.option_type
          && (expires_in spec.expiry_window o.expiration_date
              && strikes_in spec.strike_window o.strike_price))

  match_kind-of_kind :
      (o : OptionSymbol) (kind : String) → match_kind o kind ≡ of_kind kind o.option_type
  unfolding match_kind of_kind
  match_kind-of_kind o kind = elim (Bool-cases (kind == "call")) [
    | inl e ↦
        subst (λ k. match_kind o k ≡ of_kind k o.option_type) (sym (==_sound kind "call" e)) refl
    | inr c ↦ elim (Bool-cases (kind == "put")) [
      | inl e ↦
          subst (λ k. match_kind o k ≡ of_kind k o.option_type) (sym (==_sound kind "put" e)) refl
      | inr p ↦ ground (arith, c, p)
    ]
  ]

  in_expiry-expires_in :
      (w : Option DateWindow) (bounds : Option (ℕ × ℕ)) (o : OptionSymbol)
      → expiry_bounds w ≡ ok bounds
      → in_expiry bounds o ≡ expires_in w o.expiration_date
  unfolding expiry_bounds in_expiry expires_in
  in_expiry-expires_in w bounds o h = ground arith

  in_strike-strikes_in :
      (r : Option (Range f)) (o : OptionSymbol) → in_strike f r o ≡ strikes_in r o.strike_price
  unfolding in_strike strikes_in
  in_strike-strikes_in r o = ground arith

  pub keeps-passes :
      (spec : FilterSpec f) (bounds : Option (ℕ × ℕ)) (o : OptionSymbol)
      → expiry_bounds spec.expiry_window ≡ ok bounds
      → keeps f spec bounds o ≡ passes spec o
  unfolding keeps passes
  keeps-passes spec bounds o h = ground (
    arith,
    match_kind-of_kind o spec.kind,
    in_expiry-expires_in spec.expiry_window bounds o h,
    in_strike-strikes_in spec.strike_window o,
  )
