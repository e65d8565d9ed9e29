-- ===== src/Engine/Json.antt =====
-- The values that pkg/engine works on: what a JSON or YAML decoder of Go makes of a document
-- (`any`, `map[string]any`, `[]any` and the numeric types of pkg/engine/coerce.go).
-- Values are immutable trees here. The code has one place where an output keeps a part of the input
-- that it does not copy, renameMapKeys; what a later write below such a part does to the input is not
-- modelled.
use declarative_conversion_o.Prelude.{
  ℕ, String, ◌≡◌, refl, ap, Bool, Option, none, some, List, [], ◌∷◌,
}
use declarative_conversion_o.Prelude.Int.{ℤ}
use declarative_conversion_o.Prelude.Assoc.{Map}

-- A float64, named by its 64 bits. Its operations belong to the runtime.
pub data Float64 : Type 0 where
  bits : ℕ → Float64

-- The numeric types that decoders in the program's call paths produce.
pub data Number : Type 0 where
  float64 : Float64 → Number
  int64 int int32 : ℤ → Number

mutual
  pub data Json : Type 0 where
    null : Json
    bool : Bool → Json
    str : String → Json
    num : Number → Json
    arr : Items → Json
    obj : Fields → Json

  pub data Items : Type 0 where
    nil : Items
    cons : Json → Items → Items

  pub data Fields : Type 0 where
    end : Fields
    field : String → Json → Fields → Fields

-- map[string]any
abbrev pub Object : Type 0
Object = Map Json

unfoldable pub items : Items → List Json
items nil = []
items (cons v vs) = v ∷ items vs

unfoldable pub of_items : List Json → Items
of_items [] = nil
of_items (v ∷ vs) = cons v (of_items vs)

unfoldable pub fields : Fields → Object
fields end = []
fields (field k v fs) = (k, v) ∷ fields fs

unfoldable pub of_fields : Object → Fields
of_fields [] = end
of_fields ((k, v) ∷ m) = field k v (of_fields m)

-- A map or a slice as a value.
unfoldable pub object : Object → Json
unfolding of_fields
object m = obj (of_fields m)

unfoldable pub array : List Json → Json
unfolding of_items
array vs = arr (of_items vs)

-- m, ok := v.(map[string]any)
unfoldable pub as_object : Json → Option Object
unfolding fields
as_object (obj fs) = some (fields fs)
as_object _ = none

-- arr, ok := v.([]any)
unfoldable pub as_array : Json → Option (List Json)
unfolding items
as_array (arr vs) = some (items vs)
as_array _ = none

-- s, ok := v.(string)
abbrev pub as_string : Json → Option String
as_string (str s) = some s
as_string _ = none

fields-of_fields : (m : Object) → fields (of_fields m) ≡ m
unfolding fields of_fields
fields-of_fields [] = refl
fields-of_fields ((k, v) ∷ m) = ap (λ r. (k, v) ∷ r) (fields-of_fields m)

items-of_items : (vs : List Json) → items (of_items vs) ≡ vs
unfolding items of_items
items-of_items [] = refl
items-of_items (v ∷ vs) = ap (λ r. v ∷ r) (items-of_items vs)

of_fields-fields : (fs : Fields) → of_fields (fields fs) ≡ fs
unfolding fields of_fields
of_fields-fields end = refl
of_fields-fields (field k v fs) = ap (field k v) (of_fields-fields fs)

pub as_object-object : (m : Object) → as_object (object m) ≡ some m
unfolding as_object object
as_object-object m = ap some (fields-of_fields m)

pub as_array-array : (vs : List Json) → as_array (array vs) ≡ some vs
unfolding as_array array
as_array-array vs = ap some (items-of_items vs)

-- A value that reads as a map is that map.
pub object-as_object : (v : Json) (m : Object) → as_object v ≡ some m → object m ≡ v
unfolding as_object object
object-as_object (obj fs) m h = ap obj (cc (of_fields-fields fs))
object-as_object _ m h = cc
