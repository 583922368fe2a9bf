-- ===== src/Resolver/Order.antt =====
-- The order of what filterOptions returns, where the strikes are numbers.
use godxfeed.Common.{
  ◌||◌, ◌&&◌, true, false, refl, sym, ◌∙◌, [], ◌∷◌, All, String, ◌≡◌, Bool, not, List,
  if◌then◌else◌, ◌==◌, string_eq, select, arith, Option-cases, inl, inr,
}
use mathlib.Core.Path.{subst}
use text.Mathlib.TextEquality.{eq_iff}
use godxfeed.Common.Outcome.{ok, >>=-eq-ok}
use godxfeed.Common.Text.{str_lt}
use godxfeed.Common.StringOrder.{str_lt_trans, str_lt_asymm, str_lt_connected}
use godxfeed.Common.Sort.{sort_slice, IsSorted}
use godxfeed.Common.Sort.Laws.{
  sort_slice-IsSorted, IsStrictWeak, All-Permᴰ, sort_slice-perm, sort_slice_same,
}
use godxfeed.Common.Floats.{Floats, IsOrdered}
use godxfeed.Api.{OptionSymbol}
use godxfeed.Resolver.{
  FilterSpec, expiry_bounds, strike_checked, keeps, option_less, filter_options,
}

-- An order of all values: the laws of numbers, without exception.
record IsTotal (f : Floats) : Type 0 where
  transitive : (a b c : f.F) → f.less a b ≡ true → f.less b c ≡ true → f.less a c ≡ true
  asymmetric : (a b : f.F) → f.less a b ≡ true → f.less b a ≡ false
  cotransitive : (a b c : f.F) → f.less a c ≡ true → f.less a b ≡ false → f.less b c ≡ true
  same_iff : (a b : f.F) → f.same a b ≡ (not (f.less a b) && not (f.less b a))

-- The three keys of the comparison, as values.
record Keyed (f : Floats) : Type 0 where
  expiry : String
  strike : f.F
  kind : String

module _ (f : Floats) where
  keyed_less : Keyed f → Keyed f → Bool
  keyed_less a b =
      if not (a.expiry == b.expiry)
      then str_lt a.expiry b.expiry
      else if not (f.same a.strike b.strike)
      then f.less a.strike b.strike
      else str_lt a.kind b.kind

  keyed_less-IsStrictWeak : IsTotal f → IsStrictWeak keyed_less
  unfolding keyed_less
  keyed_less-IsStrictWeak o = record {
    transitive = λ a b c h k. ground (
      arith,
      str_lt_trans a.expiry b.expiry c.expiry,
      str_lt_trans a.kind b.kind c.kind,
      eq_iff a.expiry b.expiry,
      eq_iff b.expiry c.expiry,
      eq_iff a.expiry c.expiry,
      str_lt_asymm a.expiry b.expiry,
      o.same_iff a.strike b.strike,
      o.same_iff b.strike c.strike,
      o.same_iff a.strike c.strike,
      o.transitive a.strike b.strike c.strike,
      o.asymmetric a.strike b.strike,
      o.asymmetric b.strike c.strike,
      o.cotransitive a.strike c.strike b.strike,
      o.cotransitive b.strike a.strike c.strike,
      o.cotransitive c.strike b.strike a.strike,
      o.cotransitive a.strike b.strike c.strike,
      o.cotransitive b.strike c.strike a.strike,
      o.cotransitive c.strike a.strike b.strike,
    );
    asymmetric = λ a b h. ground (
      arith,
      str_lt_asymm a.expiry b.expiry,
      str_lt_asymm a.kind b.kind,
      eq_iff a.expiry b.expiry,
      eq_iff b.expiry a.expiry,
      o.same_iff a.strike b.strike,
      o.same_iff b.strike a.strike,
      o.asymmetric a.strike b.strike,
    );
    cotransitive = λ a b c h k. ground (
      arith,
      str_lt_connected a.expiry b.expiry,
      str_lt_connected b.expiry c.expiry,
      str_lt_connected a.kind b.kind,
      str_lt_connected b.kind c.kind,
      eq_iff a.expiry b.expiry,
      eq_iff b.expiry c.expiry,
      eq_iff a.expiry c.expiry,
      eq_iff a.kind b.kind,
      str_lt_trans b.expiry a.expiry c.expiry,
      str_lt_trans a.expiry c.expiry b.expiry,
      str_lt_trans b.kind a.kind c.kind,
      str_lt_asymm a.expiry c.expiry,
      str_lt_asymm a.expiry b.expiry,
      o.same_iff a.strike b.strike,
      o.same_iff b.strike c.strike,
      o.same_iff a.strike c.strike,
      o.asymmetric a.strike c.strike,
      o.asymmetric a.strike b.strike,
      o.asymmetric b.strike c.strike,
      o.cotransitive a.strike b.strike c.strike,
      o.cotransitive a.strike c.strike b.strike,
      o.cotransitive b.strike a.strike c.strike,
      o.cotransitive b.strike c.strike a.strike,
      o.cotransitive c.strike a.strike b.strike,
      o.cotransitive c.strike b.strike a.strike,
    );
  }

  keyed : OptionSymbol → Keyed f
  keyed o = record {
    expiry = o.expiration_date;
    strike = (f.parse o.strike_price).0;
    kind = o.option_type;
  }

  option_less-IsStrictWeak : IsTotal f → IsStrictWeak (option_less f)
  unfolding option_less keyed keyed_less
  option_less-IsStrictWeak o =
      let w = keyed_less-IsStrictWeak o in
      record {
        transitive = λ a b c. w.transitive (keyed a) (keyed b) (keyed c);
        asymmetric = λ a b. w.asymmetric (keyed a) (keyed b);
        cotransitive = λ a b c. w.cotransitive (keyed a) (keyed b) (keyed c);
      }

-- The floats with what is no number put before all numbers.
abbrev completed_less : (f : Floats) → (f.F → Bool) → f.F → f.F → Bool
completed_less f is_number a b = if is_number a then is_number b && f.less a b else is_number b

abbrev completed : (f : Floats) → (f.F → Bool) → Floats
completed f is_number = record {
  F = f.F;
  zero = f.zero;
  parse = f.parse;
  less = completed_less f is_number;
  same = λ a b. not (completed_less f is_number a b) && not (completed_less f is_number b a);
}

-- An option may stand before another: its expiry is earlier; or it is the same and its strike is
-- lower; or both are the same, and the kind of the other is not less than its own.
unfoldable pub may_precede : (f : Floats) → OptionSymbol → OptionSymbol → Bool
may_precede f a b =
    let x = (f.parse a.strike_price).0 in
    let y = (f.parse b.strike_price).0 in
    str_lt a.expiration_date b.expiration_date
    || (a.expiration_date == b.expiration_date)
      && (f.less x y || f.same x y && not (str_lt b.option_type a.option_type))

-- Every element may precede each later one.
abbrev pub IsInOrder : Floats → List OptionSymbol → Type 0
IsInOrder f [] = Unit
IsInOrder f (o ∷ os) = All (λ p. may_precede f o p ≡ true) os × IsInOrder f os

module _ (f : Floats) (is_number : f.F → Bool) (ordered : IsOrdered f is_number) where
  completed-IsTotal : IsTotal (completed f is_number)
  completed-IsTotal = record {
    transitive = λ a b c h k. ground (arith, ordered.transitive a b c);
    asymmetric = λ a b h. ground (arith, ordered.asymmetric a b);
    cotransitive = λ a b c h k. ground (arith, ordered.cotransitive a b c);
    same_iff = λ a b. refl;
  }

  -- The strike of an option is a number.
  abbrev pub HasNumber : OptionSymbol → Type 0
  HasNumber o = is_number (f.parse o.strike_price).0 ≡ true

  option_less-completed :
      (a b : OptionSymbol)
      → HasNumber a
      → HasNumber b
      → option_less f a b ≡ option_less (completed f is_number) a b
  unfolding option_less
  option_less-completed a b h k =
      let x = (f.parse a.strike_price).0 in
      let y = (f.parse b.strike_price).0 in ground (arith, h, k, ordered.same_iff x y)

  not_less-may_precede :
      (a b : OptionSymbol)
      → HasNumber a
      → HasNumber b
      → option_less (completed f is_number) b a ≡ false
      → may_precede f a b ≡ true
  unfolding option_less may_precede
  not_less-may_precede a b h k l =
      let x = (f.parse a.strike_price).0 in
      let y = (f.parse b.strike_price).0 in
      ground (
        arith,
        h,
        k,
        l,
        ordered.same_iff x y,
        str_lt_connected a.expiration_date b.expiration_date,
        eq_iff a.expiration_date b.expiration_date,
        eq_iff b.expiration_date a.expiration_date,
      )

  All-may_precede :
      (o : OptionSymbol) (os : List OptionSymbol)
      → HasNumber o
      → All HasNumber os
      → All (λ p. option_less (completed f is_number) p o ≡ false) os
      → All (λ p. may_precede f o p ≡ true) os
  All-may_precede o [] h k l = tt
  All-may_precede o (p ∷ os) h (k, ks) (l, ls) =
      (not_less-may_precede o p h k l, All-may_precede o os h ks ls)

  IsSorted-IsInOrder :
      (os : List OptionSymbol)
      → All HasNumber os
      → IsSorted (option_less (completed f is_number)) os
      → IsInOrder f os
  IsSorted-IsInOrder [] h s = tt
  IsSorted-IsInOrder (o ∷ os) (h, hs) (l, s) =
      (All-may_precede o os h hs l, IsSorted-IsInOrder os hs s)

  -- Where the strikes of the options that filterOptions returns are numbers, the options are in order:
  -- each has an earlier expiry than any later one; or the same, and a lower strike; or the same of
  -- both, and a kind that is not greater.
  pub filter_options-IsInOrder :
      (opts : List OptionSymbol) (spec : FilterSpec f) (out : List OptionSymbol)
      → filter_options f opts spec ≡ ok out
      → All HasNumber out
      → IsInOrder f out
  unfolding filter_options
  filter_options-IsInOrder opts spec out done numbers =
      let (bounds, e, rest) = >>=-eq-ok (expiry_bounds spec.expiry_window) _ done in
      elim (Option-cases (strike_checked f spec.strike_window)) [
        | inr (x, g) ↦ absurd (ground (arith, g, rest))
        | inl g ↦
            let kept = select (keeps f spec bounds) opts in
            let q : sort_slice (option_less f) kept ≡ out = ground (arith, g, rest) in
            let numbers' : All HasNumber kept =
              All-Permᴰ HasNumber (sort_slice-perm (option_less f) kept)
                (subst (All HasNumber) (sym q) numbers) in
            let same =
              sort_slice_same (option_less f) (option_less (completed f is_number)) HasNumber
                option_less-completed kept numbers' in
            IsSorted-IsInOrder out numbers (
              subst (IsSorted (option_less (completed f is_number))) (sym same ∙ q) (
                sort_slice-IsSorted
                  (option_less-IsStrictWeak (completed f is_number) completed-IsTotal) kept))
      ]
