-- ===== src/Examples/Resolver.antt =====
-- Witnesses of the theorems on the resolver and on the symbol methods. The strikes are whole numbers
-- below ten.
use Prim.Native.Char.{code}
use Prim.Native.String.{[], ◌∷◌}
use godxfeed.Common.{
  Bool, ℕ, ◌-◌, arith, String, ◌≡◌, refl, true, Option, none, some, List, [], ◌∷◌, ltb, eqb,
  string_eq,
}
use godxfeed.Common.Outcome.{Error, ok, opaque}
use godxfeed.Common.Floats.{Floats, IsOrdered}
use godxfeed.Common.Sort.{sort_slice}
use godxfeed.Api.{Response, OptionSymbol}
use godxfeed.Service.Symbols.{
  Rest, get_related_option_symbols, n_related_options, get_stream_symbols,
}
use godxfeed.Resolver.{FilterSpec, Sub, SymbologySource, filter_options}
use godxfeed.Resolver.Order.{IsInOrder, filter_options-IsInOrder}
use godxfeed.Examples.{ascii_only}

abbrev parse_digit : String → ℕ × Option Error
parse_digit [] = (0, some (opaque 1))
parse_digit (c ∷ s) = (code c - 48, none)

abbrev pub small : Floats
small = record { F = ℕ; zero = 0; parse = parse_digit; less = ltb; same = eqb }

-- 99 stands for what is no number.
abbrev is_digit : ℕ → Bool
is_digit n = ltb n 99

small-IsOrdered : IsOrdered small is_digit
small-IsOrdered = record {
  transitive = λ a b c m n l h k. ground arith;
  asymmetric = λ a b m n h. ground arith;
  cotransitive = λ a b c m n l h k. ground arith;
  same_iff = λ a b m n. ground arith;
}

abbrev option_of : String → String → String → OptionSymbol
option_of day strike kind = record {
  symbol = "SPY";
  instrument_type = "Equity Option";
  active = true;
  strike_price = strike;
  root_symbol = "SPY";
  underlying_symbol = "SPY";
  expiration_date = day;
  option_type = kind;
  days_to_expiration = 3;
  streamer_symbol = ".SPY";
}

abbrev chain : List OptionSymbol
chain =
    option_of "2025-03-28" "6" "C"
    ∷ option_of "2025-03-21" "5" "C"
    ∷ option_of "2025-03-21" "5" "P"
    ∷ []

abbrev pub source : SymbologySource
source = record { equity_streamer_symbol = λ root. ok root; option_symbols = λ root. ok chain }

abbrev pub march_calls : FilterSpec small
march_calls = record {
  root = "SPY";
  event_types = [];
  kind = "call";
  expiry_window = some (record { min = "2025-03-01"; max = "2025-03-31" });
  strike_window = none;
  include_equity = true;
}

abbrev resolved : List Sub
resolved =
    record { event = "Quote"; symbol = "SPY" }
    ∷ record { event = "Quote"; symbol = ".SPY" }
    ∷ record { event = "Quote"; symbol = ".SPY" }
    ∷ []

abbrev in_order : List OptionSymbol
in_order = option_of "2025-03-21" "5" "C" ∷ option_of "2025-03-28" "6" "C" ∷ []

filters : filter_options small chain march_calls ≡ ok in_order
unfolding filter_options sort_slice
filters = refl

filter_options-IsInOrder_example : IsInOrder small in_order
filter_options-IsInOrder_example =
    filter_options-IsInOrder small is_digit small-IsOrdered chain march_calls in_order filters
      (refl, (refl, tt))

abbrev answered : Response
answered = record { data_text = "{}"; error_code = ""; error_message = ""; context = "" }

abbrev pub rest : Rest
rest = record {
  new_request = λ url. none;
  access_token = some (ok "t");
  fetch = λ url auth. ok (ok "body");
  response = λ body. ok answered;
  options = λ data_text. ok chain;
  equity = λ data_text. ok (record { symbol = "SPY"; streamer_symbol = "SPY" });
}

related : get_related_option_symbols "api" rest small "spy" ≡ ok (".SPY" ∷ ".SPY" ∷ ".SPY" ∷ [])
unfolding get_related_option_symbols sort_slice
related = refl

streams :
    get_stream_symbols "api" rest "spy" (n_related_options "api" rest small 2)
    ≡ ok ("SPY" ∷ ".SPY" ∷ ".SPY" ∷ [])
unfolding get_stream_symbols n_related_options sort_slice
streams = refl
