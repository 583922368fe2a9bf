-- ===== src/Gemini/Accepted.antt =====
-- What Gemini refuses in a schema, and the lemmas on the steps of normalizeForGemini.
use godxfeed.Common.{
  ◌+◌, ◌≤◌, String, ◌≡◌, refl, ap, Bool, true, false, not, ◌&&◌, ◌||◌, Option, none, some,
  if◌then◌else◌, is_some, ◌==◌, string_eq, arith, Bool-cases, inl, inr,
}
use godxfeed.Gemini.{
  Json, Items, Fields, null, boolean, number, string, array, object, nil, cons, empty, field, get,
  set, drop, text_of, union_of, is_empty_string, filtered, size, size_items, size_fields,
}

-- A union that names no type.
unfoldable pub only_null : Items → Bool
only_null nil = true
only_null (cons v vs) = (text_of v == "null" || text_of v == "") && only_null vs

abbrev pub type_ok : Option Json → Bool
type_ok (some (array vs)) = only_null vs
type_ok _ = true

unfoldable pub no_empty_string : Items → Bool
no_empty_string nil = true
no_empty_string (cons v vs) = not (is_empty_string v) && no_empty_string vs

abbrev pub enum_ok : Option Json → Bool
enum_ok (some (array nil)) = false
enum_ok (some (array (cons v vs))) = no_empty_string (cons v vs)
enum_ok _ = true

-- A node that Gemini takes, as the comment of geminiSchema has it: no additionalProperties, no
-- union with a named type, no empty enum and no empty string in an enum.
unfoldable pub node_ok : Fields → Bool
unfolding only_null no_empty_string get
node_ok fs =
    not (is_some (get "additionalProperties" fs))
    && type_ok (get "type" fs)
    && enum_ok (get "enum" fs)

-- Every object in a value is such a node, at any depth.
unfoldable mutual
  unfolding node_ok

  pub accepted : Json → Bool
  accepted (object fs) = node_ok fs && accepted_fields fs
  accepted (array vs) = accepted_items vs
  accepted _ = true

  pub accepted_items : Items → Bool
  accepted_items nil = true
  accepted_items (cons (object fs) vs) = (node_ok fs && accepted_fields fs) && accepted_items vs
  accepted_items (cons v vs) = accepted_items vs

  pub accepted_fields : Fields → Bool
  accepted_fields empty = true
  accepted_fields (field k v fs) = accepted v && accepted_fields fs

pub size_fields-field :
    (k : String) (v : Json) (fs : Fields) → size_fields (field k v fs) ≡ size v + size_fields fs
unfolding size_fields
size_fields-field k v fs = refl

module _ (k : String) where
  pub get-set :
      (j : String) (v : Json) (fs : Fields)
      → get j (set k v fs) ≡ (if k == j then some v else get j fs)
  unfolding get set
  get-set j v empty = refl
  get-set j v (field i w fs) =
      ground
        (arith, string_eq.beq_iff k j, string_eq.beq_iff i k, string_eq.beq_iff i j, get-set j v fs)

  pub get-drop :
      (j : String) (fs : Fields) → get j (drop k fs) ≡ (if k == j then none else get j fs)
  unfolding get drop
  get-drop j empty = ground arith
  get-drop j (field i w fs) =
      ground
        (arith, string_eq.beq_iff k j, string_eq.beq_iff i k, string_eq.beq_iff i j, get-drop j fs)

  pub size-set : (v : Json) (fs : Fields) → size_fields (set k v fs) ≤ size v + size_fields fs
  unfolding set
  size-set v empty = omega (arith, size_fields-field k v empty)
  size-set v (field i w fs) = elim (Bool-cases (i == k)) [
    | inl e ↦ rw e (omega (arith, size_fields-field i v fs, size_fields-field i w fs))
    | inr e ↦
        rw e (
          omega
            (arith, size_fields-field i w (set k v fs), size_fields-field i w fs, size-set v fs))
  ]

  pub size-set_at :
      (v w : Json) (fs : Fields)
      → get k fs ≡ some w
      → size v ≤ size w
      → size_fields (set k v fs) ≤ size_fields fs
  unfolding set get
  size-set_at v w empty h le = absurd (ground (arith, h))
  size-set_at v w (field i u fs) h le = elim (Bool-cases (i == k)) [
    | inl e ↦
        let same : u ≡ w = ground (arith, e, h) in
        rw e (omega (arith, size_fields-field i v fs, size_fields-field i u fs, le, ap size same))
    | inr e ↦
        let later : get k fs ≡ some w = ground (arith, e, h) in
        rw e (
          omega (
            arith,
            size_fields-field i u (set k v fs),
            size_fields-field i u fs,
            size-set_at v w fs later le,
          ))
  ]

  pub size-drop : (fs : Fields) → size_fields (drop k fs) ≤ size_fields fs
  unfolding drop
  size-drop empty = omega arith
  size-drop (field i w fs) = elim (Bool-cases (i == k)) [
    | inl e ↦ rw e (omega (arith, size_fields-field i w fs, size-drop fs))
    | inr e ↦
        rw e
          (omega (arith, size_fields-field i w (drop k fs), size_fields-field i w fs, size-drop fs))
  ]

union_of-named :
    (t : Items) (p : String) (b : Bool) → (p == "") ≡ false → ((union_of t p b).0 == "") ≡ false
unfolding union_of
union_of-named nil p b h = h
union_of-named (cons v vs) p b h =
    ground (arith, h, union_of-named vs p true h, union_of-named vs p b h)

pub union_of-only_null :
    (t : Items) (b : Bool) → ((union_of t "" b).0 == "") ≡ true → only_null t ≡ true
unfolding union_of only_null
union_of-only_null nil b h = refl
union_of-only_null (cons v vs) b h = elim (Bool-cases (text_of v == "")) [
  | inl e ↦ ground (
    arith,
    e,
    h,
    string_eq.beq_iff (text_of v) "",
    union_of-only_null vs true,
    union_of-only_null vs b,
  )
  | inr e ↦ ground (arith, e, h, union_of-only_null vs true, union_of-named vs (text_of v) b e)
]

pub size_items-filtered : (vs : Items) → size_items (filtered vs) ≤ size_items vs
unfolding filtered size_items
size_items-filtered nil = ground arith
size_items-filtered (cons (object fs) vs) = ground (arith, size_items-filtered vs)
size_items-filtered (cons (string s) vs) = elim (Bool-cases (s == "")) [
  | inl e ↦ rw e (size_items-filtered vs)
  | inr e ↦ rw e (size_items-filtered vs)
]
size_items-filtered (cons (array ws) vs) = ground (arith, size_items-filtered vs)
size_items-filtered (cons null vs) = ground (arith, size_items-filtered vs)
size_items-filtered (cons (boolean b) vs) = ground (arith, size_items-filtered vs)
size_items-filtered (cons (number t) vs) = ground (arith, size_items-filtered vs)

pub no_empty_string-filtered : (vs : Items) → no_empty_string (filtered vs) ≡ true
unfolding filtered no_empty_string
no_empty_string-filtered nil = refl
no_empty_string-filtered (cons v vs) = ground (arith, no_empty_string-filtered vs)
