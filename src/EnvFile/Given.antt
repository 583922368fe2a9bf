-- ===== src/EnvFile/Given.antt =====
-- What requireFlags ensures.
use godxfeed.Common.{
  String, ◌≡◌, ap, true, false, none, List, [], ◌∷◌, arith, All, Bool-cases, inl, inr, ◌==◌,
  string_eq, ==_sound, is_empty,
}
use godxfeed.Common.Text.{trim_space}
use godxfeed.EnvFile.{missing, require_flags}

abbrev pub IsGiven : (String → String) → String → Type 0
IsGiven value name = (trim_space (value name) == "") ≡ false

missing-IsGiven :
    (value : String → String) (names : List String)
    → is_empty (missing value names) ≡ true
    → All (IsGiven value) names
unfolding missing
missing-IsGiven value [] h = tt
missing-IsGiven value (n ∷ ns) h = elim (Bool-cases (trim_space (value n) == "")) [
  | inl blank ↦ absurd (ground (arith, h, blank))
  | inr full ↦ (full, missing-IsGiven value ns (ground (arith, h, full)))
]

pub require_flags-IsGiven :
    (value : String → String) (names : List String)
    → require_flags value names ≡ none
    → All (IsGiven value) names
unfolding require_flags
require_flags-IsGiven value names h = missing-IsGiven value names (ground (arith, h))

-- A flag that is given is not empty.
pub IsGiven-full :
    (value : String → String) (name : String) → IsGiven value name → (value name == "") ≡ false
unfolding trim_space
IsGiven-full value name h = elim (Bool-cases (value name == "")) [
  | inr full ↦ full
  | inl blank ↦
      absurd (ground (arith, ap (λ v. trim_space v == "") (==_sound (value name) "" blank), h))
]
