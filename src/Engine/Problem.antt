-- ===== src/Engine/Problem.antt =====
-- The messages of pkg/engine's diagnostics, one constructor for each format string, with the rule's
-- index left to the diagnostic. A first text is the strategy's name, and a side is "hub" or "spoke",
-- or empty where the message names none.
use declarative_conversion_o.Prelude.{ℕ, String, Bool, Option}
use declarative_conversion_o.Engine.Failure.{FieldPath}
use declarative_conversion_o.Engine.Kind.{FieldKind}
use declarative_conversion_o.Engine.Schema.{LookupError}
use declarative_conversion_o.Engine.Rule.{Strategy}

-- Why a required field may be missing: nothing to say, no rule that guarantees it, a rule with a
-- condition, a rule of unknown output, or a rule with an optional source.
pub data Reason : Type 0 where
  no_reason no_guarantee : Reason
  carries_when by_rule : ℕ → Strategy → Reason
  from_optional : ℕ → Strategy → String → Reason

pub data Problem : Type 0 where
  -- hub or spoke, path, construct
  uncovered : Bool → String → String → Problem
  bad_path : (strategy side : String) → LookupError → Problem
  already_claimed : (side key : String) → Problem
  type_mismatch : FieldPath → FieldKind → FieldPath → FieldKind → Problem
  not_coercible not_numeric not_a_string items_not_coercible :
      (strategy side : String) → FieldPath → FieldKind → Problem
  not_an_array : (strategy side : String) → FieldPath → Problem
  bad_fractional_policy : Problem
  zero_factor : Problem
  not_a_pair : String → FieldPath → FieldKind → FieldPath → FieldKind → Problem
  invalid_key : (strategy key : String) → Problem
  json_label : Problem
  ambiguous_enum : Problem
  invalid_pattern invalid_template : String → Problem
  no_group : (strategy name : String) → Problem
  unverified : String → Problem
  bad_patch : (side : String) → Problem
  too_deep : Problem
  no_item_schema : Problem
  in_item : Problem → Problem
  no_branch_mapping no_branch_properties : Problem
  no_discriminator : (discriminator side : String) → FieldPath → Problem
  no_branch : ℕ → (name side : String) → FieldPath → Problem
  in_branch : String → Problem → Problem
  not_a_map : (side : String) → FieldPath → FieldKind → Problem
  no_renames empty_rename_key : Problem
  rename_not_injective : String → Problem
  no_paths no_expression bad_expression : (side : String) → Problem
  unknown_params : Problem
  lossy_to_spoke lossy_to_hub : Problem
  no_when_path : Problem
  bad_when_path : (side : String) → LookupError → Problem
  partial_coverage : FieldPath → Problem
  spoke_not_found spoke_not_served : (version : String) → Problem
  -- The note is there for a set that is uncertain, with its reason.
  authored_field_shadowed : (side version path platform : String) (note : Option String) → Problem
  rule_targets_injected :
      ℕ → Strategy → (side path injected platform : String) (note : Option String) → Problem
  required_in_whole required_unwritten : (side path : String) → Problem
  required_unprovable required_conditional required_unsatisfiable :
      (side path : String) → Reason → Problem
