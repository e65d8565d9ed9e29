-- ===== src/Engine/Kind.antt =====
-- The closed vocabularies of pkg/engine that are string types in Go: field kinds (schema.go) and
-- policies (rules.go). A policy that no constant names is `other`, and `unset` is "".
use declarative_conversion_o.Prelude.{String, Bool, true, false}

pub data FieldKind : Type 0 where
  string integer number boolean array object unknown : FieldKind

pub data UnknownKeyPolicy : Type 0 where
  error drop unset : UnknownKeyPolicy
  other : String → UnknownKeyPolicy

pub data FractionalIntegerPolicy : Type 0 where
  error truncate round unset : FractionalIntegerPolicy
  other : String → FractionalIntegerPolicy

-- p == UnknownKeyError
abbrev pub is_error : UnknownKeyPolicy → Bool
is_error UnknownKeyPolicy.error = true
is_error _ = false

unfoldable pub normalize_fractional_policy : FractionalIntegerPolicy → FractionalIntegerPolicy
normalize_fractional_policy FractionalIntegerPolicy.unset = FractionalIntegerPolicy.error
normalize_fractional_policy p = p

unfoldable pub is_coercible_scalar : FieldKind → Bool
is_coercible_scalar FieldKind.string = true
is_coercible_scalar FieldKind.integer = true
is_coercible_scalar FieldKind.number = true
is_coercible_scalar FieldKind.boolean = true
is_coercible_scalar _ = false

-- string(kind)
abbrev pub kind_name : FieldKind → String
kind_name FieldKind.string = "string"
kind_name FieldKind.integer = "integer"
kind_name FieldKind.number = "number"
kind_name FieldKind.boolean = "boolean"
kind_name FieldKind.array = "array"
kind_name FieldKind.object = "object"
kind_name FieldKind.unknown = "unknown"
