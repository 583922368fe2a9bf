-- ===== src/Subject/Scheme.antt =====
-- The tokens of a subject, which NATS separates by dots, and what can be read back from them.
use Prim.Native.Char.{Char, code}
use Prim.Native.String.{String, [], ◌∷◌, ◌++◌}
use mathlib.Core.Path.{subst⁻¹, ap₂}
use mathlib.Core.List.{List, [], ◌∷◌}
use text.Mathlib.TextLemmas.{nil-append, cons-append, append_assoc}
use text.Mathlib.TextEquality.{Char-path}
use godxfeed.Common.{◌≡◌, refl, sym, ap, ◌∙◌, false, arith, eqb, inl, inr, Bool-cases}
use godxfeed.Common.Text.{Unicode, to_lower, split, push_first}
use godxfeed.Subject.{subject_for}

abbrev pub NoDot : String → Type 0
NoDot [] = Unit
NoDot (c ∷ s) = (eqb (code c) b'.' ≡ false) × NoDot s

abbrev dot : Char
dot = "."

dot-append : (s : String) → "." ++ s ≡ dot ∷ s
dot-append s = cons-append "." "" s ∙ ap (λ t. dot ∷ t) (nil-append s)

split-ne-nil : (s : String) → (w : String) × (ws : List String) × (split b'.' s ≡ w ∷ ws)
unfolding split
split-ne-nil [] = ("", [], refl)
split-ne-nil (c ∷ s) =
    let (w, ws, e) = split-ne-nil s in
    elim (Bool-cases (eqb (code c) b'.')) [
      | inl sep ↦ ("", split b'.' s, rw sep)
      | inr other ↦ (c ∷ w, ws, rw other (ap (push_first c) e))
    ]

-- The empty text is the only one with the tokens of the empty text.
split-nil_ne : (c : Char) (s : String) → split b'.' (c ∷ s) ≡ "" ∷ [] → ⊥
unfolding split
split-nil_ne c s h =
    let (w, ws, e) = split-ne-nil s in
    elim (Bool-cases (eqb (code c) b'.')) [
      | inl sep ↦ let k = rw sep at h in cc (e, k)
      | inr other ↦ let k = rw (other, e) at h in cc k
    ]

split_injective : (s t : String) → split b'.' s ≡ split b'.' t → s ≡ t
unfolding split
split_injective [] [] h = refl
split_injective [] (d ∷ t) h = absurd (split-nil_ne d t (sym h))
split_injective (c ∷ s) [] h = absurd (split-nil_ne c s h)
split_injective (c ∷ s) (d ∷ t) h =
    let (w, ws, e) = split-ne-nil s in
    let (v, vs, f) = split-ne-nil t in
    elim (Bool-cases (eqb (code c) b'.')) [
      | inl sep ↦ elim (Bool-cases (eqb (code d) b'.')) [
        | inl sep' ↦
            let k = rw (sep, sep') at h in
            ap₂ ◌∷◌ (Char-path c d (ground arith)) (split_injective s t (cc k))
        | inr other' ↦ let k = rw (sep, other', f) at h in cc k
      ]
      | inr other ↦ elim (Bool-cases (eqb (code d) b'.')) [
        | inl sep' ↦ let k = rw (other, sep', e) at h in cc k
        | inr other' ↦
            let k = rw (other, other', e, f) at h in
            ap₂ ◌∷◌ (cc k) (split_injective s t (cc (e, f, k)))
      ]
    ]

split_token : (w s : String) → NoDot w → split b'.' (w ++ "." ++ s) ≡ w ∷ split b'.' s
unfolding split
split_token [] s h = ap (split b'.') (nil-append ("." ++ s) ∙ dot-append s)
split_token (c ∷ w) s (p, h) =
    subst⁻¹ (λ t. split b'.' t ≡ (c ∷ w) ∷ split b'.' s) (cons-append c w ("." ++ s))
      (rw p (ap (push_first c) (split_token w s h)))

-- If the event, in lower case, has no dot, the tokens of its subject are the prefix, the event in
-- lower case, and those of the symbol.
pub split-subject_for :
    ⦃u : Unicode⦄ (event symbol : String)
    → NoDot (to_lower event)
    → split b'.' (subject_for event symbol) ≡ "godxfeed" ∷ to_lower event ∷ split b'.' symbol
unfolding subject_for
split-subject_for event symbol h =
    ap (split b'.') (append_assoc "godxfeed" "." (to_lower event ++ "." ++ symbol))
    ∙ split_token "godxfeed" (to_lower event ++ "." ++ symbol) no_dot
    ∙ ap (λ ws. "godxfeed" ∷ ws) (split_token (to_lower event) symbol h)
  where
    no_dot : NoDot "godxfeed"
    no_dot = (refl, (refl, (refl, (refl, (refl, (refl, (refl, (refl, tt))))))))

-- Two pairs whose events have no dot have the same subject only if their symbols are equal and
-- their events are equal in lower case.
pub subject_for_injective :
    ⦃u : Unicode⦄ (e f s t : String)
    → NoDot (to_lower e)
    → NoDot (to_lower f)
    → subject_for e s ≡ subject_for f t
    → (to_lower e ≡ to_lower f) × (s ≡ t)
subject_for_injective e f s t he hf h =
    let same = sym (split-subject_for e s he) ∙ ap (split b'.') h ∙ split-subject_for f t hf in
    (cc same, split_injective s t (cc same))

-- The subject of a symbol that begins with a dot, as every option's streamer symbol does, has an
-- empty token, whatever the event, provided that the event has no dot.
pub option_subject_has_empty_token :
    ⦃u : Unicode⦄ (event rest : String)
    → NoDot (to_lower event)
    → split b'.' (subject_for event ("." ++ rest))
      ≡ "godxfeed" ∷ to_lower event ∷ "" ∷ split b'.' rest
option_subject_has_empty_token event rest h =
    split-subject_for event ("." ++ rest) h
    ∙ ap (λ ws. "godxfeed" ∷ to_lower event ∷ ws)
        (ap (split b'.') (sym (nil-append ("." ++ rest))) ∙ split_token "" rest tt)
