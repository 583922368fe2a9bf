-- ===== src/Gemini.antt =====
-- The schema of service/llm/gemini.go: normalizeForGemini on a decoded JSON object.
pub mod Accepted
pub mod Steps
pub mod Schema
pub mod Fuel
use godxfeed.Common.{
  ℕ, zero, suc, ◌+◌, String, Bool, true, false, not, ◌&&◌, Option, none, some, if◌then◌else◌, ◌==◌,
  string_eq,
}

-- What encoding/json decodes to. An object is a Go map: one entry for a key.
mutual
  pub data Json : Type 0 where
    null : Json
    boolean : Bool → Json
    number : String → Json
    string : String → Json
    array : Items → Json
    object : Fields → Json

  pub data Items : Type 0 where
    nil : Items
    cons : Json → Items → Items

  pub data Fields : Type 0 where
    empty : Fields
    field : String → Json → Fields → Fields

-- v, ok := node[k]
unfoldable pub get : String → Fields → Option Json
get k empty = none
get k (field j v fs) = if j == k then some v else get k fs

-- node[k] = v
unfoldable pub set : String → Json → Fields → Fields
set k v empty = field k v empty
set k v (field j w fs) = if j == k then field j v fs else field j w (set k v fs)

-- delete(node, k)
unfoldable pub drop : String → Fields → Fields
drop k empty = empty
drop k (field j v fs) = let rest = drop k fs in if j == k then rest else field j v rest

-- s, _ := v.(string)
abbrev pub text_of : Json → String
text_of (string s) = s
text_of _ = ""

-- The loop over a type that is a union: `primary` and `nullable`.
unfoldable pub union_of : Items → String → Bool → String × Bool
union_of nil primary nullable = (primary, nullable)
union_of (cons v vs) primary nullable =
    if text_of v == "null"
    then union_of vs primary true
    else union_of vs (if primary == "" then text_of v else primary) nullable

-- What becomes of a node whose type is as given.
unfoldable pub retyped : Fields → Option Json → Fields
unfolding set union_of
retyped node (some (array t)) =
    let (primary, nullable) = union_of t "" false in
    let named = if primary == "" then node else set "type" (string primary) node in
    if nullable then set "nullable" (boolean true) named else named
retyped node _ = node

unfoldable pub rewrite_type : Fields → Fields
unfolding get retyped
rewrite_type node = retyped node (get "type" node)

abbrev pub is_empty_string : Json → Bool
is_empty_string (string s) = s == ""
is_empty_string _ = false

-- The loop that filters an enum.
unfoldable pub filtered : Items → Items
filtered nil = nil
filtered (cons v vs) = let rest = filtered vs in if is_empty_string v then rest else cons v rest

unfoldable pub with_enum : Fields → Items → Fields
unfolding set drop
with_enum node nil = drop "enum" node
with_enum node (cons v vs) = set "enum" (array (cons v vs)) node

-- What becomes of a node whose enum is as given.
unfoldable pub stripped : Fields → Option Json → Fields
unfolding with_enum filtered
stripped node (some (array vs)) = with_enum node (filtered vs)
stripped node _ = node

unfoldable pub strip_enum : Fields → Fields
unfolding get stripped
strip_enum node = stripped node (get "enum" node)

-- The items of an array that are objects; an array in it is left as it is.
unfoldable pub each_item : (Fields → Fields) → Items → Items
each_item g nil = nil
each_item g (cons (object fs) vs) = cons (object (g fs)) (each_item g vs)
each_item g (cons v vs) = cons v (each_item g vs)

abbrev pub child : (Fields → Fields) → Json → Json
child g (object fs) = object (g fs)
child g (array vs) = array (each_item g vs)
child g v = v

-- The loop over the children of a node.
unfoldable pub each_child : (Fields → Fields) → Fields → Fields
unfolding each_item
each_child g empty = empty
each_child g (field k v fs) = field k (child g v) (each_child g fs)

-- normalizeForGemini on fuel.
unfoldable pub normalize_for_gemini : ℕ → Fields → Fields
unfolding rewrite_type drop strip_enum each_child
normalize_for_gemini zero node = node
normalize_for_gemini (suc n) node =
    each_child (normalize_for_gemini n)
      (strip_enum (drop "additionalProperties" (rewrite_type node)))

-- The objects in a value that the walk reaches.
unfoldable mutual
  pub size : Json → ℕ
  size (object fs) = suc (size_fields fs)
  size (array vs) = size_items vs
  size _ = 0

  pub size_items : Items → ℕ
  size_items nil = 0
  size_items (cons (object fs) vs) = suc (size_fields fs) + size_items vs
  size_items (cons v vs) = size_items vs

  pub size_fields : Fields → ℕ
  size_fields empty = 0
  size_fields (field k v fs) = size v + size_fields fs

-- geminiSchema, on the shared schema as it is decoded.
unfoldable pub gemini_schema : Fields → Fields
unfolding normalize_for_gemini size
gemini_schema schema = normalize_for_gemini (suc (size_fields schema)) schema
