-- ===== src/EnvFile/Lines.antt =====
-- What a reader of the env file finds after upsertEnv.
use Prim.Native.Char.{Char, code}
use Prim.Native.String.{[], ◌∷◌, ◌++◌}
use mathlib.Core.Path.{subst⁻¹}
use text.Mathlib.TextLemmas.{nil-append, cons-append}
use godxfeed.Common.{
  String, ◌≡◌, refl, ap, ◌∙◌, true, false, Option, none, some, List, [], ◌∷◌, All, if◌then◌else◌,
  eqb, arith, Bool-cases, inl, inr,
}
use godxfeed.Common.Text.Prefix.{has_prefix-append}
use godxfeed.Common.Text.{split, push_first, join_with, has_prefix}
use godxfeed.EnvFile.{upsert_lines, upsert_env}

abbrev pub IsLine : String → Type 0
IsLine [] = Unit
IsLine (c ∷ s) = (eqb (code c) 10 ≡ false) × IsLine s

-- The first line that sets a key, as a reader of the file takes it.
unfoldable pub setting : String → List String → Option String
setting prefix [] = none
setting prefix (line ∷ lines) =
    let rest = setting prefix lines in if has_prefix line prefix then some line else rest

IsLine-append : (p v : String) → IsLine p → IsLine v → IsLine (p ++ v)
IsLine-append [] v hp hv = subst⁻¹ IsLine (nil-append v) hv
IsLine-append (c ∷ p) v (h, hp) hv = subst⁻¹ IsLine (cons-append c p v) (h, IsLine-append p v hp hv)

split-IsLine : (s : String) → All IsLine (split 10 s)
unfolding split
split-IsLine [] = (tt, tt)
split-IsLine (c ∷ s) = elim (Bool-cases (eqb (code c) 10)) [
  | inl sep ↦ rw sep (tt, split-IsLine s)
  | inr other ↦ rw other (push_first-IsLine c (split 10 s) other (split-IsLine s))
]
  where
    push_first-IsLine :
        (c : Char) (ws : List String)
        → eqb (code c) 10 ≡ false
        → All IsLine ws
        → All IsLine (push_first c ws)
    push_first-IsLine c [] e h = ((e, tt), tt)
    push_first-IsLine c (w ∷ ws) e (h, hs) = ((e, h), hs)

split-line : (w : String) → IsLine w → split 10 w ≡ w ∷ []
unfolding split
split-line [] h = refl
split-line (c ∷ w) (e, h) = rw (e, split-line w h) refl

split-line_break : (w s : String) → IsLine w → split 10 (w ++ ("\n" ++ s)) ≡ w ∷ split 10 s
unfolding split
split-line_break [] s h =
    ap (split 10)
      (nil-append ("\n" ++ s) ∙ cons-append "\n" "" s ∙ ap (λ t. String.◌∷◌ "\n" t) (nil-append s))
split-line_break (c ∷ w) s (e, h) =
    subst⁻¹ (λ t. split 10 t ≡ (String.◌∷◌ c w) ∷ split 10 s) (cons-append c w ("\n" ++ s))
      (rw e (ap (push_first c) (split-line_break w s h)))

-- Lines that are joined are split again as they were.
split-join :
    (w : String) (ws : List String)
    → All IsLine (w ∷ ws)
    → split 10 (join_with "\n" (w ∷ ws)) ≡ w ∷ ws
unfolding join_with
split-join w [] (h, hs) = split-line w h
split-join w (v ∷ ws) (h, hs) =
    split-line_break w (join_with "\n" (v ∷ ws)) h ∙ ap (λ t. w ∷ t) (split-join v ws hs)

upsert_lines-IsLine :
    (p new : String) (ls : List String)
    → IsLine new
    → All IsLine ls
    → All IsLine (upsert_lines p new ls)
unfolding upsert_lines
upsert_lines-IsLine p new [] h hs = (h, tt)
upsert_lines-IsLine p new (l ∷ ls) h (k, hs) = elim (Bool-cases (has_prefix l p)) [
  | inl e ↦ rw e (h, hs)
  | inr e ↦ rw e (k, upsert_lines-IsLine p new ls h hs)
]

split-join_upsert :
    (p new : String) (ls : List String)
    → IsLine new
    → All IsLine ls
    → split 10 (join_with "\n" (upsert_lines p new ls)) ≡ upsert_lines p new ls
unfolding upsert_lines
split-join_upsert p new [] h hs = split-join new [] (h, tt)
split-join_upsert p new (l ∷ ls) h (k, hs) = elim (Bool-cases (has_prefix l p)) [
  | inl e ↦ rw e (split-join new ls (h, hs))
  | inr e ↦ rw e (split-join l (upsert_lines p new ls) (k, upsert_lines-IsLine p new ls h hs))
]

setting-upsert_lines :
    (p new : String) (ls : List String)
    → has_prefix new p ≡ true
    → setting p (upsert_lines p new ls) ≡ some new
unfolding setting upsert_lines
setting-upsert_lines p new [] h = ground (arith, h)
setting-upsert_lines p new (l ∷ ls) h = ground (arith, h, setting-upsert_lines p new ls h)

upsert_lines_twice :
    (p new new' : String) (ls : List String)
    → has_prefix new p ≡ true
    → upsert_lines p new' (upsert_lines p new ls) ≡ upsert_lines p new' ls
unfolding upsert_lines
upsert_lines_twice p new new' [] h = ground (arith, h)
upsert_lines_twice p new new' (l ∷ ls) h = ground (arith, h, upsert_lines_twice p new new' ls h)

-- For a key and a value without a line break: after upsertEnv, the first line that sets the key sets
-- it to the value, whatever the file was; and a second upsertEnv of the key gives the file that it
-- would have given at once.
pub upsert_env_sets :
    (key value value' content : String)
    → IsLine key
    → IsLine value
    → (setting (key ++ "=") (split 10 (upsert_env key value content))
        ≡ some ((key ++ "=") ++ value))
      × (upsert_env key value' (upsert_env key value content) ≡ upsert_env key value' content)
unfolding upsert_env
upsert_env_sets key value value' content hk hv =
    let p = key ++ "=" in
    let new = p ++ value in
    let line : IsLine new = IsLine-append p value (IsLine-append key "=" hk (refl, tt)) hv in
    let there = has_prefix-append p value in
    let again = split-join_upsert p new (split 10 content) line (split-IsLine content) in
    (
      ap (setting p) again ∙ setting-upsert_lines p new (split 10 content) there,
      ap (λ ls. join_with "\n" (upsert_lines p (p ++ value') ls)) again
          ∙ ap (join_with "\n") (upsert_lines_twice p new (p ++ value') (split 10 content) there),
    )
