-- ===== src/Resolver.antt =====
-- service/llm/resolver.go: from a filter to the subscriptions that it asks for.
pub mod Passes
pub mod Exact
pub mod Order
use godxfeed.Common.{
  ℕ, String, ◌≡◌, Bool, true, false, not, ◌&&◌, ◌||◌, Option, none, some, List, [], ◌∷◌, ◌++◌, map,
  ltb, if◌then◌else◌, ◌==◌, string_eq, is_empty, is_some, select, exists,
}
use godxfeed.Common.Outcome.{Error, Result, ok, err, fail, wrap, opaque, str, ◌>>=◌, context}
use godxfeed.Common.Text.{Unicode, to_upper, trim_space, equal_fold, str_lt}
use godxfeed.Common.Sort.{sort_slice}
use godxfeed.Common.Dates.{parse_date}
use godxfeed.Common.Floats.{Floats}
use godxfeed.Api.{OptionSymbol}

-- service/llm/provider.go
pub record DateWindow : Type 0 where
  pub min : String
  pub max : String

pub record Range (f : Floats) : Type 0 where
  pub min : f.F
  pub max : f.F

pub record FilterSpec (f : Floats) : Type 0 where
  pub root : String
  pub event_types : List String
  pub kind : String
  pub expiry_window : Option DateWindow
  pub strike_window : Option (Range f)
  pub include_equity : Bool

pub record Sub : Type 0 where
  pub event : String
  pub symbol : String

-- tastytrade, as the resolver asks it.
pub record SymbologySource : Type 0 where
  pub equity_streamer_symbol : String → Result String
  pub option_symbols : String → Result (List OptionSymbol)

unfoldable pub is_event_type : String → Bool
is_event_type e = e == "Quote" || e == "Greeks" || e == "TheoPrice" || e == "Underlying"

-- validateEventTypes
unfoldable pub validate_event_types : List String → Option Error
unfolding is_event_type
validate_event_types [] = none
validate_event_types (e ∷ es) =
    let rest = validate_event_types es in
    if is_event_type e then rest else some (fail "resolve: unknown event type %q" (str e ∷ []))

unfoldable pub match_kind : OptionSymbol → String → Bool
unfolding equal_fold
match_kind o kind =
    if kind == "" || kind == "both"
    then true
    else if kind == "call"
    then equal_fold o.option_type "C" || equal_fold o.option_type "call"
    else if kind == "put"
    then equal_fold o.option_type "P" || equal_fold o.option_type "put"
    else false

unfoldable pub is_kind : String → Bool
is_kind kind = kind == "" || kind == "call" || kind == "put" || kind == "both"

-- The bounds that filterOptions parses from the window.
unfoldable pub expiry_bounds : Option DateWindow → Result (Option (ℕ × ℕ))
unfolding parse_date
expiry_bounds none = ok none
expiry_bounds (some w) = elim (parse_date w.min) [
  | none ↦ err (wrap "resolve: bad expiry min %q: %w" (str w.min ∷ []) (opaque 0))
  | some low ↦ elim (parse_date w.max) [
    | none ↦ err (wrap "resolve: bad expiry max %q: %w" (str w.max ∷ []) (opaque 0))
    | some high ↦
        if ltb high low
        then err (fail "resolve: expiry max %s before min %s" (str w.max ∷ str w.min ∷ []))
        else ok (some (low, high))
  ]
]

unfoldable pub in_expiry : Option (ℕ × ℕ) → OptionSymbol → Bool
unfolding parse_date
in_expiry none o = true
in_expiry (some (low, high)) o = elim (parse_date o.expiration_date) [
  | none ↦ false
  | some day ↦ not (ltb day low || ltb high day)
]

module _ (f : Floats) where
  -- The two numbers of the error's text are not kept.
  unfoldable pub strike_checked : Option (Range f) → Option Error
  strike_checked none = none
  strike_checked (some r) =
      if f.less r.max r.min then some (fail "resolve: strike max %g before min %g" []) else none

  unfoldable pub in_strike : Option (Range f) → OptionSymbol → Bool
  in_strike none o = true
  in_strike (some r) o =
      let (strike, failed) = f.parse o.strike_price in
      elim failed [ some e ↦ false | none ↦ not (f.less strike r.min || f.less r.max strike) ]

  -- What the loop of filterOptions keeps.
  unfoldable pub keeps : FilterSpec f → Option (ℕ × ℕ) → OptionSymbol → Bool
  unfolding match_kind in_expiry in_strike
  keeps spec bounds o =
      match_kind o spec.kind
      && in_expiry bounds o
      && in_strike spec.strike_window o
      && not (o.streamer_symbol == "")

  -- The comparison that filterOptions sorts by; a strike that does not parse is what ParseFloat
  -- returns with its error.
  unfoldable pub option_less : OptionSymbol → OptionSymbol → Bool
  option_less a b =
      if not (a.expiration_date == b.expiration_date)
      then str_lt a.expiration_date b.expiration_date
      else if not (f.same (f.parse a.strike_price).0 (f.parse b.strike_price).0)
      then f.less (f.parse a.strike_price).0 (f.parse b.strike_price).0
      else str_lt a.option_type b.option_type

  unfoldable pub filter_options : List OptionSymbol → FilterSpec f → Result (List OptionSymbol)
  unfolding keeps expiry_bounds strike_checked option_less
  filter_options opts spec = expiry_bounds spec.expiry_window >>= λ bounds.
      elim (strike_checked spec.strike_window) [
        | some e ↦ err e
        | none ↦ ok (sort_slice option_less (select (keeps spec bounds) opts))
      ]

  unfoldable pub wants_options : FilterSpec f → Bool
  wants_options spec =
      not (spec.kind == "") || is_some spec.strike_window || is_some spec.expiry_window

  -- The assignments to f.Root and f.EventTypes.
  unfoldable pub normalized : ⦃u : Unicode⦄ → FilterSpec f → FilterSpec f
  unfolding to_upper trim_space
  normalized spec = record spec {
    root = to_upper (trim_space spec.root);
    event_types = if is_empty spec.event_types then "Quote" ∷ [] else spec.event_types;
  }

  unfoldable pub validated : FilterSpec f → Option Error
  unfolding validate_event_types is_kind
  validated spec =
      if spec.root == ""
      then some (fail "resolve: root is required" [])
      else elim (validate_event_types spec.event_types) [
        | some e ↦ some e
        | none ↦
            if is_kind spec.kind
            then none
            else some
                (fail "resolve: invalid kind %q (want call|put|both|\"\")" (str spec.kind ∷ []))
      ]

abbrev pub subs_for : List String → String → List Sub
subs_for [] symbol = []
subs_for (e ∷ es) symbol = record { event = e; symbol = symbol } ∷ subs_for es symbol

abbrev pub option_subs : List String → List OptionSymbol → List Sub
option_subs events [] = []
option_subs events (o ∷ os) = subs_for events o.streamer_symbol ++ option_subs events os

module _ (f : Floats) (source : SymbologySource) where
  unfoldable pub equity_part : FilterSpec f → Result (List Sub)
  unfolding wants_options
  equity_part spec =
      if not (spec.include_equity || not (wants_options f spec))
      then ok []
      else context (wrap "resolve: equity symbol %s: %w" (str spec.root ∷ []))
          (source.equity_streamer_symbol spec.root)
        >>= λ streamer. ok (subs_for spec.event_types streamer)

  unfoldable pub option_part : FilterSpec f → Result (List Sub)
  unfolding wants_options filter_options
  option_part spec =
      if not (wants_options f spec)
      then ok []
      else context (wrap "resolve: option chain %s: %w" (str spec.root ∷ []))
          (source.option_symbols spec.root)
        >>= λ opts.
            filter_options f opts spec >>= λ filtered. ok (option_subs spec.event_types filtered)

  -- Resolve after its checks.
  unfoldable pub expand : FilterSpec f → Result (List Sub)
  unfolding equity_part option_part
  expand spec = equity_part spec >>= λ out. option_part spec >>= λ more. ok (out ++ more)

  unfoldable pub resolve : ⦃u : Unicode⦄ → FilterSpec f → Result (List Sub)
  unfolding expand normalized validated
  resolve spec =
      let spec' = normalized f spec in
      elim (validated f spec') [ some e ↦ err e | none ↦ expand spec' ]
