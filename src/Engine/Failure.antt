-- ===== src/Engine/Failure.antt =====
-- The errors of pkg/engine's operations, one constructor for each message. The first argument of
-- a message that several operations share is its prefix, the operation's name.
use declarative_conversion_o.Prelude.{ℕ, String, List}
use declarative_conversion_o.Prelude.Result.{Result as ResultOr}
use declarative_conversion_o.Engine.Json.{Json, Number}

-- type FieldPath []string
abbrev pub FieldPath : Type 0
FieldPath = List String

pub data Failure : Type 0 where
  empty_path : Failure
  cannot_descend : String → Failure
  not_an_object not_an_array not_a_string not_numeric : String → FieldPath → Failure
  element_not_object : String → ℕ → FieldPath → Failure
  entry_not_object : FieldPath → String → Failure
  unexpected_key : String → FieldPath → Failure
  unmapped_value : Json → FieldPath → Failure
  missing_key_field key_field_not_string : ℕ → FieldPath → String → Failure
  duplicate_key : String → FieldPath → Failure
  length_mismatch : FieldPath → ℕ → FieldPath → ℕ → Failure
  no_match : String → FieldPath → Failure
  no_capture_group : String → Failure
  no_branch : FieldPath → List String → Failure
  several_branches : List String → FieldPath → Failure
  branch_not_object : String → FieldPath → Failure
  key_collision : String → FieldPath → Failure
  invalid_label_key invalid_label_value : String → Failure
  cannot_coerce : Json → String → Failure
  bad_target_kind : Failure
  fractional : Number → Failure
  non_finite : Number → Failure
  not_whole_seconds : String → Failure
  library : String → Failure
  at_field : String → FieldPath → Failure → Failure
  at_element : String → ℕ → Failure → Failure
  at_name : String → String → Failure → Failure
  no_plan : String → Failure
  nil_plan : Failure

abbrev pub Result : Type 0 → Type 0
Result A = ResultOr Failure A
