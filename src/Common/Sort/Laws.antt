-- ===== src/Common/Sort/Laws.antt =====
-- Sorting: the result is in order, is a rearrangement, and does not depend on the order of the input
-- where any two elements can be compared.
use mathlib.Core.Path.{◌≡◌, refl, sym, ap, ap₂, subst, subst₂, ◌∙◌}
use mathlib.Core.Logic.{◌⊎◌, inl, inr}
use mathlib.Core.Bool.{Bool, true, false}
use mathlib.Core.List.{List, [], ◌∷◌, Permᴰ}
use mathlib.Core.List.Permᴰ as PermD
use native.Mathlib.Omega.{arith}
use godxfeed.Common.Tests.{Bool-cases}
use godxfeed.Common.Lists.{All}
use godxfeed.Common.Sort.{insert_sorted, sort_slice, IsSorted}

-- What `sort.Slice` asks of its comparison.
pub record IsStrictWeak {ℓ} {A : Type ℓ} (less : A → A → Bool) : Type ℓ where
  pub transitive : (a b c : A) → less a b ≡ true → less b c ≡ true → less a c ≡ true
  pub asymmetric : (a b : A) → less a b ≡ true → less b a ≡ false
  pub cotransitive : (a b c : A) → less a c ≡ true → less a b ≡ false → less b c ≡ true

module _ {ℓ} {A : Type ℓ} (less : A → A → Bool) where
  abbrev pub AreComparable : A → A → Type 0
  AreComparable a b = (less a b ≡ true) ⊎ (less b a ≡ true)

  -- Any two elements at different places are comparable.
  abbrev pub IsComparable : List A → Type 0
  IsComparable [] = Unit
  IsComparable (x ∷ xs) = All (AreComparable x) xs × IsComparable xs

module _ {ℓ} {A : Type ℓ} {less : A → A → Bool} (o : IsStrictWeak less) where
  insert_sorted_swap_lt :
      (a b : A) (l : List A)
      → less a b ≡ true
      → insert_sorted less a (insert_sorted less b l)
        ≡ insert_sorted less b (insert_sorted less a l)
  unfolding insert_sorted
  insert_sorted_swap_lt a b [] h = ground (arith, o.asymmetric a b)
  insert_sorted_swap_lt a b (z ∷ l) h =
      ground (arith, o.asymmetric a b, o.transitive z a b, insert_sorted_swap_lt a b l)

  insert_sorted_swap :
      (a b : A) (l : List A)
      → AreComparable less a b
      → insert_sorted less a (insert_sorted less b l)
        ≡ insert_sorted less b (insert_sorted less a l)
  insert_sorted_swap a b l (inl h) = insert_sorted_swap_lt a b l h
  insert_sorted_swap a b l (inr h) = sym (insert_sorted_swap_lt b a l h)

module _ {ℓ} {A : Type ℓ} where
  pub All-Permᴰ {κ} : (P : A → Type κ) {xs ys : List A} → Permᴰ xs ys → All P xs → All P ys
  All-Permᴰ P Permᴰ.nil h = h
  All-Permᴰ P (Permᴰ.cons e d) (p, h) = (subst P e p, All-Permᴰ P d h)
  All-Permᴰ P (Permᴰ.swap e₁ e₂) (p, (q, h)) = (subst P e₂ q, (subst P e₁ p, h))
  All-Permᴰ P (Permᴰ.trans d₁ d₂) h = All-Permᴰ P d₂ (All-Permᴰ P d₁ h)

  module _ (less : A → A → Bool) where
    flip_comparable : (a b : A) → AreComparable less a b → AreComparable less b a
    flip_comparable a b (inl h) = inr h
    flip_comparable a b (inr h) = inl h

    IsComparable-Permᴰ :
        {xs ys : List A} → Permᴰ xs ys → IsComparable less xs → IsComparable less ys
    IsComparable-Permᴰ Permᴰ.nil h = h
    IsComparable-Permᴰ (Permᴰ.cons {a} {l₂ = l₂} e d) (p, h) = (
      subst (λ z. All (AreComparable less z) l₂) e (All-Permᴰ (AreComparable less a) d p),
      IsComparable-Permᴰ d h,
    )
    IsComparable-Permᴰ (Permᴰ.swap {a} {b} {l} e₁ e₂) ((ab, p), (q, h)) =
        let t : IsComparable less (b ∷ a ∷ l) = ((flip_comparable a b ab, q), (p, h)) in
        subst₂ (λ x y. IsComparable less (x ∷ y ∷ l)) e₂ e₁ t
    IsComparable-Permᴰ (Permᴰ.trans d₁ d₂) h = IsComparable-Permᴰ d₂ (IsComparable-Permᴰ d₁ h)

    -- Where any two elements are comparable, the sorted list does not depend on the order given.
    pub sort_slice-Permᴰ :
        IsStrictWeak less
        → {xs ys : List A} → Permᴰ xs ys
        → IsComparable less xs
        → sort_slice less xs ≡ sort_slice less ys
    unfolding sort_slice
    sort_slice-Permᴰ o Permᴰ.nil h = refl
    sort_slice-Permᴰ o (Permᴰ.cons e d) (p, h) = ap₂ (insert_sorted less) e (sort_slice-Permᴰ o d h)
    sort_slice-Permᴰ o (Permᴰ.swap {a} {b} {l} e₁ e₂) ((ab, p), h) =
        insert_sorted_swap o a b (sort_slice less l) ab
        ∙ ap₂ (λ x y. insert_sorted less x (insert_sorted less y (sort_slice less l))) e₂ e₁
    sort_slice-Permᴰ o (Permᴰ.trans d₁ d₂) h =
        sort_slice-Permᴰ o d₁ h ∙ sort_slice-Permᴰ o d₂ (IsComparable-Permᴰ d₁ h)

module _ {ℓ} {A : Type ℓ} (less : A → A → Bool) where
  insert_sorted-perm : (a : A) (l : List A) → Permᴰ (insert_sorted less a l) (a ∷ l)
  unfolding insert_sorted
  insert_sorted-perm a [] = Permᴰ.cons refl Permᴰ.nil
  insert_sorted-perm a (x ∷ l) = elim (Bool-cases (less x a)) [
    | inl before ↦
        rw before (Permᴰ.trans (Permᴰ.cons refl (insert_sorted-perm a l)) (Permᴰ.swap refl refl))
    | inr after ↦ rw after (PermD.refl (a ∷ x ∷ l))
  ]

  -- Sorting rearranges.
  pub sort_slice-perm : (l : List A) → Permᴰ (sort_slice less l) l
  unfolding sort_slice
  sort_slice-perm [] = Permᴰ.nil
  sort_slice-perm (x ∷ l) =
      Permᴰ.trans (insert_sorted-perm x (sort_slice less l)) (Permᴰ.cons refl (sort_slice-perm l))

module _ {ℓ} {A : Type ℓ} {less : A → A → Bool} (o : IsStrictWeak less) where
  NotLess-trans :
      (a x : A) (l : List A)
      → less x a ≡ false
      → All (λ y. less y x ≡ false) l
      → All (λ y. less y a ≡ false) l
  NotLess-trans a x [] h k = tt
  NotLess-trans a x (y ∷ l) h (p, k) =
      (ground (arith, o.cotransitive y x a), NotLess-trans a x l h k)

  insert_sorted-IsSorted :
      (a : A) (l : List A) → IsSorted less l → IsSorted less (insert_sorted less a l)
  unfolding insert_sorted
  insert_sorted-IsSorted a [] h = (tt, tt)
  insert_sorted-IsSorted a (x ∷ l) (p, h) = elim (Bool-cases (less x a)) [
    | inl before ↦ rw before (
      All-Permᴰ (λ y. less y x ≡ false) (PermD.symm (insert_sorted-perm less a l))
          (o.asymmetric x a before, p),
      insert_sorted-IsSorted a l h,
    )
    | inr after ↦ rw after ((after, NotLess-trans a x l after p), (p, h))
  ]

  -- Sorting puts in order.
  pub sort_slice-IsSorted : (l : List A) → IsSorted less (sort_slice less l)
  unfolding sort_slice
  sort_slice-IsSorted [] = tt
  sort_slice-IsSorted (x ∷ l) = insert_sorted-IsSorted x (sort_slice less l) (sort_slice-IsSorted l)

-- Two comparisons that agree on the elements sort them the same.
module _ {ℓ} {A : Type ℓ} (less less' : A → A → Bool) (P : A → Type 0)
    (agree : (a b : A) → P a → P b → less a b ≡ less' a b) where
  insert_sorted_same :
      (a : A) (l : List A) → P a → All P l → insert_sorted less a l ≡ insert_sorted less' a l
  unfolding insert_sorted
  insert_sorted_same a [] p h = refl
  insert_sorted_same a (x ∷ l) p (q, h) = rw (agree x a q p, insert_sorted_same a l p h) refl

  pub sort_slice_same : (l : List A) → All P l → sort_slice less l ≡ sort_slice less' l
  unfolding sort_slice
  sort_slice_same [] h = refl
  sort_slice_same (x ∷ l) (p, h) =
      insert_sorted_same x (sort_slice less l) p
        (All-Permᴰ P (PermD.symm (sort_slice-perm less l)) h)
      ∙ ap (insert_sorted less' x) (sort_slice_same l h)
