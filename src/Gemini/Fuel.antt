-- ===== src/Gemini/Fuel.antt =====
-- The fuel of normalizeForGemini is enough.
use godxfeed.Common.{ℕ, zero, suc, ◌≤◌, ◌<◌, ◌≡◌, refl, sym, ap, ◌∙◌, arith}
use godxfeed.Gemini.{
  Json, Items, Fields, null, boolean, number, string, array, object, nil, cons, empty, field, drop,
  rewrite_type, strip_enum, each_item, child, each_child, normalize_for_gemini, size, size_items,
  size_fields, gemini_schema,
}
use godxfeed.Gemini.Accepted.{size_fields-field}
use godxfeed.Gemini.Steps.{adapted, size-adapted}

-- Two functions that agree on the nodes up to a size do the same to the children of such a node.
module _ (n : ℕ) (g g' : Fields → Fields)
    (same : (fs : Fields) → size_fields fs < n → g fs ≡ g' fs) where
  each_item_agree : (vs : Items) → size_items vs ≤ n → each_item g vs ≡ each_item g' vs
  unfolding each_item size_items
  each_item_agree nil h = refl
  each_item_agree (cons (object fs) vs) h =
      rw (same fs (omega arith), each_item_agree vs (omega arith)) refl
  each_item_agree (cons (array ws) vs) h = rw (each_item_agree vs h) refl
  each_item_agree (cons (string s) vs) h = rw (each_item_agree vs h) refl
  each_item_agree (cons (number s) vs) h = rw (each_item_agree vs h) refl
  each_item_agree (cons (boolean b) vs) h = rw (each_item_agree vs h) refl
  each_item_agree (cons null vs) h = rw (each_item_agree vs h) refl

  child_agree : (v : Json) → size v ≤ n → child g v ≡ child g' v
  unfolding size
  child_agree (object fs) h = ap object (same fs (omega arith))
  child_agree (array vs) h = ap array (each_item_agree vs h)
  child_agree (string s) h = refl
  child_agree (number s) h = refl
  child_agree (boolean b) h = refl
  child_agree null h = refl

  each_child_agree : (fs : Fields) → size_fields fs ≤ n → each_child g fs ≡ each_child g' fs
  unfolding each_child
  each_child_agree empty h = refl
  each_child_agree (field k v fs) h =
      rw
        (
          child_agree v (omega (arith, size_fields-field k v fs)),
          each_child_agree fs (omega (arith, size_fields-field k v fs)),
        )
        refl

-- Any fuel above the size gives the same.
fuel_agrees :
    (n m : ℕ) (node : Fields)
    → size_fields node < n
    → size_fields node < m
    → normalize_for_gemini n node ≡ normalize_for_gemini m node
unfolding normalize_for_gemini adapted
fuel_agrees zero m node h k = absurd (omega arith)
fuel_agrees (suc n) zero node h k = absurd (omega arith)
fuel_agrees (suc n) (suc m) node h k =
    each_child_agree (size_fields node) (normalize_for_gemini n) (normalize_for_gemini m)
      (λ fs lt. fuel_agrees n m fs (omega arith) (omega arith)) (adapted node) (size-adapted node)

gemini_schema-eq :
    (node : Fields) → gemini_schema node ≡ normalize_for_gemini (suc (size_fields node)) node
unfolding gemini_schema
gemini_schema-eq node = refl

-- With more fuel than there are objects below a node, normalizeForGemini gives what geminiSchema
-- gives, which satisfies the recursion of the source: the node's type, additionalProperties and enum
-- are rewritten, and then each child that is an object, or an object in an array, is rewritten the
-- same way, without a bound on the depth.
normalize_for_gemini_fuel :
    (n : ℕ) (node : Fields)
    → size_fields node < n
    → (normalize_for_gemini n node ≡ gemini_schema node)
      × (gemini_schema node
          ≡ each_child gemini_schema (strip_enum (drop "additionalProperties" (rewrite_type node))))
unfolding adapted normalize_for_gemini
normalize_for_gemini_fuel n node h = (
  fuel_agrees n (suc (size_fields node)) node h (omega arith) ∙ sym (gemini_schema-eq node),
  gemini_schema-eq node ∙ step,
)
  where
    deeper :
        (fs : Fields)
        → size_fields fs < size_fields node
        → normalize_for_gemini (size_fields node) fs ≡ gemini_schema fs
    deeper fs lt =
        fuel_agrees (size_fields node) (suc (size_fields fs)) fs lt (omega arith)
        ∙ sym (gemini_schema-eq fs)

    step :
        normalize_for_gemini (suc (size_fields node)) node ≡ each_child gemini_schema (adapted node)
    step =
        each_child_agree (size_fields node) (normalize_for_gemini (size_fields node)) gemini_schema
          deeper (adapted node) (size-adapted node)
