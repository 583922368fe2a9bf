-- ===== src/Gemini/Steps.antt =====
-- What the steps of normalizeForGemini make of the node that they are on.
use godxfeed.Common.{
  ◌≤◌, String, ◌≡◌, refl, true, false, Option, none, some, if◌then◌else◌, ◌==◌, string_eq, arith,
  Bool-cases, inl, inr,
}
use godxfeed.Gemini.{
  Json, Items, Fields, null, boolean, number, string, array, object, nil, cons, get, set, drop,
  union_of, retyped, rewrite_type, filtered, with_enum, stripped, strip_enum, size, size_items,
  size_fields,
}
use godxfeed.Gemini.Accepted.{
  type_ok, no_empty_string, enum_ok, node_ok, get-set, get-drop, size-set, size-set_at, size-drop,
  union_of-only_null, size_items-filtered, no_empty_string-filtered,
}

-- retyped sets `type` to a string, and `nullable`.
type_ok-retyped :
    (fs : Fields) (o : Option Json) → get "type" fs ≡ o → type_ok (get "type" (retyped fs o)) ≡ true
unfolding retyped
type_ok-retyped fs none h = rw h refl
type_ok-retyped fs (some (array t)) h =
    let named = set "type" (string (union_of t "" false).0) fs in
    ground (
      arith,
      h,
      union_of-only_null t false,
      get-set "type" "type" (string (union_of t "" false).0) fs,
      get-set "nullable" "type" (boolean true) fs,
      get-set "nullable" "type" (boolean true) named,
    )
type_ok-retyped fs (some (object gs)) h = rw h refl
type_ok-retyped fs (some (string s)) h = rw h refl
type_ok-retyped fs (some (number s)) h = rw h refl
type_ok-retyped fs (some (boolean b)) h = rw h refl
type_ok-retyped fs (some null) h = rw h refl

-- A value without objects takes no room.
size-set_flat :
    (k : String) (v : Json) (fs : Fields) → size v ≡ 0 → size_fields (set k v fs) ≤ size_fields fs
size-set_flat k v fs h = omega (arith, h, size-set k v fs)

size-retyped : (fs : Fields) (o : Option Json) → size_fields (retyped fs o) ≤ size_fields fs
unfolding retyped size
size-retyped fs none = omega arith
size-retyped fs (some (array t)) =
    let (primary, nullable) = union_of t "" false in
    let node = if primary == "" then fs else set "type" (string primary) fs in
    let named : size_fields node ≤ size_fields fs = elim (Bool-cases (primary == "")) [
      | inl e ↦ rw e (omega arith)
      | inr e ↦ rw e (size-set_flat "type" (string primary) fs refl)
    ] in
    elim (Bool-cases nullable) [
      | inl e ↦ rw e (omega (arith, named, size-set_flat "nullable" (boolean true) node refl))
      | inr e ↦ rw e named
    ]
size-retyped fs (some (object gs)) = omega arith
size-retyped fs (some (string s)) = omega arith
size-retyped fs (some (number s)) = omega arith
size-retyped fs (some (boolean b)) = omega arith
size-retyped fs (some null) = omega arith

enum_ok-with_enum :
    (fs : Fields) (vs : Items)
    → no_empty_string vs ≡ true
    → enum_ok (get "enum" (with_enum fs vs)) ≡ true
unfolding with_enum
enum_ok-with_enum fs nil h = rw (get-drop "enum" "enum" fs) refl
enum_ok-with_enum fs (cons v vs) h = rw (get-set "enum" "enum" (array (cons v vs)) fs) h

enum_ok-stripped :
    (fs : Fields) (o : Option Json)
    → get "enum" fs ≡ o
    → enum_ok (get "enum" (stripped fs o)) ≡ true
unfolding stripped
enum_ok-stripped fs none h = rw h refl
enum_ok-stripped fs (some (array vs)) h =
    enum_ok-with_enum fs (filtered vs) (no_empty_string-filtered vs)
enum_ok-stripped fs (some (object gs)) h = rw h refl
enum_ok-stripped fs (some (string s)) h = rw h refl
enum_ok-stripped fs (some (number s)) h = rw h refl
enum_ok-stripped fs (some (boolean b)) h = rw h refl
enum_ok-stripped fs (some null) h = rw h refl

get-with_enum :
    (k : String) (fs : Fields) (vs : Items)
    → ("enum" == k) ≡ false
    → get k (with_enum fs vs) ≡ get k fs
unfolding with_enum
get-with_enum k fs nil h = rw (get-drop "enum" k fs) (rw h refl)
get-with_enum k fs (cons v vs) h = rw (get-set "enum" k (array (cons v vs)) fs) (rw h refl)

get-stripped :
    (k : String) (fs : Fields) (o : Option Json)
    → ("enum" == k) ≡ false
    → get k (stripped fs o) ≡ get k fs
unfolding stripped
get-stripped k fs none h = refl
get-stripped k fs (some (array vs)) h = get-with_enum k fs (filtered vs) h
get-stripped k fs (some (object gs)) h = refl
get-stripped k fs (some (string s)) h = refl
get-stripped k fs (some (number s)) h = refl
get-stripped k fs (some (boolean b)) h = refl
get-stripped k fs (some null) h = refl

size-with_enum :
    (fs : Fields) (vs ws : Items)
    → get "enum" fs ≡ some (array ws)
    → size_items vs ≤ size_items ws
    → size_fields (with_enum fs vs) ≤ size_fields fs
unfolding with_enum size
size-with_enum fs nil ws h le = size-drop "enum" fs
size-with_enum fs (cons v vs) ws h le = size-set_at "enum" (array (cons v vs)) (array ws) fs h le

size-stripped :
    (fs : Fields) (o : Option Json)
    → get "enum" fs ≡ o
    → size_fields (stripped fs o) ≤ size_fields fs
unfolding stripped
size-stripped fs none h = omega arith
size-stripped fs (some (array vs)) h = size-with_enum fs (filtered vs) vs h (size_items-filtered vs)
size-stripped fs (some (object gs)) h = omega arith
size-stripped fs (some (string s)) h = omega arith
size-stripped fs (some (number s)) h = omega arith
size-stripped fs (some (boolean b)) h = omega arith
size-stripped fs (some null) h = omega arith

-- What the steps on a node itself make of it: a node that Gemini takes, and no larger.
unfoldable pub adapted : Fields → Fields
adapted fs = strip_enum (drop "additionalProperties" (rewrite_type fs))

pub node_ok-adapted : (fs : Fields) → node_ok (adapted fs) ≡ true
unfolding adapted node_ok strip_enum rewrite_type
node_ok-adapted fs =
    let typed = rewrite_type fs in
    let dropped = drop "additionalProperties" typed in
    ground (
      arith,
      type_ok-retyped fs (get "type" fs) refl,
      enum_ok-stripped dropped (get "enum" dropped) refl,
      get-stripped "type" dropped (get "enum" dropped) refl,
      get-stripped "additionalProperties" dropped (get "enum" dropped) refl,
      get-drop "additionalProperties" "type" typed,
      get-drop "additionalProperties" "additionalProperties" typed,
    )

pub size-adapted : (fs : Fields) → size_fields (adapted fs) ≤ size_fields fs
unfolding adapted strip_enum rewrite_type
size-adapted fs =
    let typed = rewrite_type fs in
    let dropped = drop "additionalProperties" typed in
    omega (
      arith,
      size-retyped fs (get "type" fs),
      size-drop "additionalProperties" typed,
      size-stripped dropped (get "enum" dropped) refl,
    )
