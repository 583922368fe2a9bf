-- ===== src/Gemini/Schema.antt =====
-- normalizeForGemini leaves nothing that Gemini refuses, at any depth.
use godxfeed.Common.{
  ℕ, zero, suc, ◌≤◌, ◌<◌, String, ◌≡◌, refl, true, not, ◌&&◌, Option, none, some, is_some, ◌==◌,
  string_eq, arith, Bool-cases, inl, inr,
}
use mathlib.Core.Option
use godxfeed.Gemini.{
  Json, Items, Fields, null, boolean, number, string, array, object, nil, cons, empty, field, get,
  each_item, child, each_child, normalize_for_gemini, size, size_items, size_fields, gemini_schema,
}
use godxfeed.Gemini.Accepted.{
  only_null, type_ok, no_empty_string, enum_ok, node_ok, accepted, accepted_items, accepted_fields,
  size_fields-field,
}
use godxfeed.Gemini.Steps.{adapted, node_ok-adapted, size-adapted}

module _ (g : Fields → Fields) where
  only_null-each_item : (vs : Items) → only_null (each_item g vs) ≡ only_null vs
  unfolding only_null each_item
  only_null-each_item nil = refl
  only_null-each_item (cons (object fs) vs) = rw (only_null-each_item vs) refl
  only_null-each_item (cons (array ws) vs) = rw (only_null-each_item vs) refl
  only_null-each_item (cons (string s) vs) = rw (only_null-each_item vs) refl
  only_null-each_item (cons (number s) vs) = rw (only_null-each_item vs) refl
  only_null-each_item (cons (boolean s) vs) = rw (only_null-each_item vs) refl
  only_null-each_item (cons null vs) = rw (only_null-each_item vs) refl

  no_empty_string-each_item : (vs : Items) → no_empty_string (each_item g vs) ≡ no_empty_string vs
  unfolding no_empty_string each_item
  no_empty_string-each_item nil = refl
  no_empty_string-each_item (cons (object fs) vs) = rw (no_empty_string-each_item vs) refl
  no_empty_string-each_item (cons (array ws) vs) = rw (no_empty_string-each_item vs) refl
  no_empty_string-each_item (cons (string s) vs) = rw (no_empty_string-each_item vs) refl
  no_empty_string-each_item (cons (number s) vs) = rw (no_empty_string-each_item vs) refl
  no_empty_string-each_item (cons (boolean s) vs) = rw (no_empty_string-each_item vs) refl
  no_empty_string-each_item (cons null vs) = rw (no_empty_string-each_item vs) refl

  enum_ok-each_item :
      (vs : Items) → enum_ok (some (array (each_item g vs))) ≡ enum_ok (some (array vs))
  unfolding each_item no_empty_string
  enum_ok-each_item nil = refl
  enum_ok-each_item (cons (object fs) vs) = rw (no_empty_string-each_item vs) refl
  enum_ok-each_item (cons (array ws) vs) = rw (no_empty_string-each_item vs) refl
  enum_ok-each_item (cons (string s) vs) = rw (no_empty_string-each_item vs) refl
  enum_ok-each_item (cons (number s) vs) = rw (no_empty_string-each_item vs) refl
  enum_ok-each_item (cons (boolean s) vs) = rw (no_empty_string-each_item vs) refl
  enum_ok-each_item (cons null vs) = rw (no_empty_string-each_item vs) refl

  get-each_child :
      (k : String) (fs : Fields) → get k (each_child g fs) ≡ Option.map (child g) (get k fs)
  unfolding get each_child
  get-each_child k empty = refl
  get-each_child k (field j v fs) = elim (Bool-cases (j == k)) [
    | inl e ↦ rw e refl
    | inr e ↦ rw e (get-each_child k fs)
  ]

  node_ok-each_child : (fs : Fields) → node_ok (each_child g fs) ≡ node_ok fs
  unfolding node_ok
  node_ok-each_child fs =
      rw
        (
          get-each_child "additionalProperties" fs,
          get-each_child "type" fs,
          get-each_child "enum" fs,
        )
        (values (get "additionalProperties" fs) (get "type" fs) (get "enum" fs))
    where
      type_ok-child : (o : Option Json) → type_ok (Option.map (child g) o) ≡ type_ok o
      type_ok-child none = refl
      type_ok-child (some (array vs)) = only_null-each_item vs
      type_ok-child (some (object gs)) = refl
      type_ok-child (some (string s)) = refl
      type_ok-child (some (number s)) = refl
      type_ok-child (some (boolean b)) = refl
      type_ok-child (some null) = refl

      enum_ok-child : (o : Option Json) → enum_ok (Option.map (child g) o) ≡ enum_ok o
      enum_ok-child none = refl
      enum_ok-child (some (array vs)) = enum_ok-each_item vs
      enum_ok-child (some (object gs)) = refl
      enum_ok-child (some (string s)) = refl
      enum_ok-child (some (number s)) = refl
      enum_ok-child (some (boolean b)) = refl
      enum_ok-child (some null) = refl

      values :
          (a t e : Option Json)
          → (not (is_some (Option.map (child g) a))
              && type_ok (Option.map (child g) t)
              && enum_ok (Option.map (child g) e))
            ≡ (not (is_some a) && type_ok t && enum_ok e)
      values none t e = rw (type_ok-child t, enum_ok-child e) refl
      values (some a) t e = refl

  -- Where g makes accepted nodes of nodes up to a size, it does so below a node of that size.
  module _ (n : ℕ)
      (good : (fs : Fields)
        → size_fields fs < n
        → (node_ok (g fs) && accepted_fields (g fs)) ≡ true) where
    accepted-each_item : (vs : Items) → size_items vs ≤ n → accepted_items (each_item g vs) ≡ true
    unfolding each_item accepted_items size_items
    accepted-each_item nil h = refl
    accepted-each_item (cons (object fs) vs) h =
        rw (good fs (omega arith)) (accepted-each_item vs (omega arith))
    accepted-each_item (cons (array ws) vs) h = accepted-each_item vs h
    accepted-each_item (cons (string s) vs) h = accepted-each_item vs h
    accepted-each_item (cons (number s) vs) h = accepted-each_item vs h
    accepted-each_item (cons (boolean s) vs) h = accepted-each_item vs h
    accepted-each_item (cons null vs) h = accepted-each_item vs h

    accepted-child : (v : Json) → size v ≤ n → accepted (child g v) ≡ true
    unfolding accepted size
    accepted-child (object fs) h = good fs (omega arith)
    accepted-child (array vs) h = accepted-each_item vs h
    accepted-child (string s) h = refl
    accepted-child (number s) h = refl
    accepted-child (boolean s) h = refl
    accepted-child null h = refl

    accepted-each_child :
        (fs : Fields) → size_fields fs ≤ n → accepted_fields (each_child g fs) ≡ true
    unfolding each_child accepted_fields
    accepted-each_child empty h = refl
    accepted-each_child (field k v fs) h =
        rw (accepted-child v (omega (arith, size_fields-field k v fs)))
          (accepted-each_child fs (omega (arith, size_fields-field k v fs)))

accepted-normalize :
    (n : ℕ) (fs : Fields)
    → size_fields fs < n
    → (node_ok (normalize_for_gemini n fs) && accepted_fields (normalize_for_gemini n fs)) ≡ true
unfolding normalize_for_gemini adapted
accepted-normalize zero fs h = absurd (omega arith)
accepted-normalize (suc n) fs h =
    let g = normalize_for_gemini n in
    rw (node_ok-each_child g (adapted fs), node_ok-adapted fs)
      (accepted-each_child g n (accepted-normalize n) (adapted fs) (omega (arith, size-adapted fs)))

-- Of any decoded schema, geminiSchema leaves an object in which no node, at any depth that the walk
-- reaches, has a key additionalProperties, a union that names a type, an empty enum, or an empty
-- string in an enum.
pub gemini_schema-accepted : (schema : Fields) → accepted (object (gemini_schema schema)) ≡ true
unfolding gemini_schema accepted
gemini_schema-accepted schema = accepted-normalize (suc (size_fields schema)) schema (omega arith)
