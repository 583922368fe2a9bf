-- ===== src/Common/Text.antt =====
-- The functions of Go's package `strings` that the program calls. A Go string is read as the text
-- that its bytes encode; a string that is not valid UTF-8 is not modelled.
pub mod Prefix
use Prim.Native.Nat.{ℕ}
use Prim.Native.Char.{Char, code}
use Prim.Native.String.{String, [], ◌∷◌, compare}
use Prim.Native.String
use mathlib.Core.Bool.{Bool, true, false, ◌&&◌, ◌||◌}
use mathlib.Core.List.{List, [], ◌∷◌}
use text.Mathlib.Text.{is_lt}
use godxfeed.Common.Tests.{ltb, leb, eqb, if◌then◌else◌}
use godxfeed.Common.Keys.{◌==◌, string_eq}

-- The case tables of package `unicode` beyond ASCII.
pub record Unicode : Type 0 where
  pub lower : Char → Char
  pub upper : Char → Char

abbrev translate : String → String → Char → Char
translate [] ys c = c
translate (x ∷ xs) [] c = c
translate (x ∷ xs) (y ∷ ys) c =
    let rest = translate xs ys c in if eqb (code x) (code c) then y else rest

abbrev pub map_chars : (Char → Char) → String → String
map_chars f [] = []
map_chars f (c ∷ s) = f c ∷ map_chars f s

-- unicode.ToLower, with its rule for ASCII written out.
unfoldable pub lower_char : ⦃u : Unicode⦄ → Char → Char
lower_char ⦃u⦄ c =
    if ltb (code c) 128
    then translate "ABCDEFGHIJKLMNOPQRSTUVWXYZ" "abcdefghijklmnopqrstuvwxyz" c
    else u.lower c

unfoldable pub upper_char : ⦃u : Unicode⦄ → Char → Char
upper_char ⦃u⦄ c =
    if ltb (code c) 128
    then translate "abcdefghijklmnopqrstuvwxyz" "ABCDEFGHIJKLMNOPQRSTUVWXYZ" c
    else u.upper c

-- strings.ToLower, strings.ToUpper
unfoldable pub to_lower : ⦃u : Unicode⦄ → String → String
unfolding lower_char
to_lower s = map_chars lower_char s

unfoldable pub to_upper : ⦃u : Unicode⦄ → String → String
unfolding upper_char
to_upper s = map_chars upper_char s

-- strings.EqualFold against an ASCII text with none of the letters k and s, which alone have fold
-- partners beyond ASCII.
ascii_lower : Char → Char
ascii_lower c = translate "ABCDEFGHIJKLMNOPQRSTUVWXYZ" "abcdefghijklmnopqrstuvwxyz" c

unfoldable pub equal_fold : String → String → Bool
unfolding ascii_lower
equal_fold s t = map_chars ascii_lower s == map_chars ascii_lower t

-- unicode.IsSpace
unfoldable pub is_space : Char → Bool
is_space c =
    leb 9 (code c) && leb (code c) 13
    || eqb (code c) 32
    || eqb (code c) 0x85
    || eqb (code c) 0xa0
    || eqb (code c) 0x1680
    || leb 0x2000 (code c) && leb (code c) 0x200a
    || eqb (code c) 0x2028
    || eqb (code c) 0x2029
    || eqb (code c) 0x202f
    || eqb (code c) 0x205f
    || eqb (code c) 0x3000

abbrev pub is_nil : String → Bool
is_nil [] = true
is_nil (c ∷ s) = false

pub trim_left : (Char → Bool) → String → String
trim_left p [] = []
trim_left p (c ∷ s) = let rest = trim_left p s in if p c then rest else c ∷ s

pub trim_right : (Char → Bool) → String → String
trim_right p [] = []
trim_right p (c ∷ s) = let rest = trim_right p s in if is_nil rest && p c then [] else c ∷ rest

-- strings.TrimSpace
unfoldable pub trim_space : String → String
unfolding trim_left trim_right is_space
trim_space s = trim_right is_space (trim_left is_space s)

-- strings.HasPrefix, strings.TrimPrefix
unfoldable pub has_prefix : String → String → Bool
has_prefix s [] = true
has_prefix [] (d ∷ p) = false
has_prefix (c ∷ s) (d ∷ p) = eqb (code c) (code d) && has_prefix s p

abbrev drop_like : String → String → String
drop_like s [] = s
drop_like [] (d ∷ p) = []
drop_like (c ∷ s) (d ∷ p) = drop_like s p

unfoldable pub trim_prefix : String → String → String
unfolding has_prefix
trim_prefix s p = if has_prefix s p then drop_like s p else s

-- strings.Split(s, sep) for a separator of one character.
abbrev pub push_first : Char → List String → List String
push_first c [] = (c ∷ []) ∷ []
push_first c (w ∷ ws) = (c ∷ w) ∷ ws

unfoldable pub split : ℕ → String → List String
split sep [] = [] ∷ []
split sep (c ∷ s) =
    let rest = split sep s in if eqb (code c) sep then [] ∷ rest else push_first c rest

-- strings.Join
unfoldable pub join_with : String → List String → String
join_with sep [] = []
join_with sep (w ∷ []) = w
join_with sep (w ∷ (v ∷ ws)) = String.◌++◌ w (String.◌++◌ sep (join_with sep (v ∷ ws)))

-- The order of Go's strings, byte by byte.
abbrev pub str_lt : String → String → Bool
str_lt s t = is_lt (compare s t)
