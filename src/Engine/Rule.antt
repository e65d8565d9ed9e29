-- ===== src/Engine/Rule.antt =====
-- pkg/engine/rules.go: the declarative rules between a hub and a spoke schema.
use declarative_conversion_o.Prelude.{ℕ, String, Bool, Option, List}
use declarative_conversion_o.Prelude.Assoc.{Map}
use declarative_conversion_o.Engine.Json.{Json, Object, Float64}
use declarative_conversion_o.Engine.Failure.{FieldPath}
use declarative_conversion_o.Engine.Kind.{UnknownKeyPolicy, FractionalIntegerPolicy}

-- A strategy that no constant names is `other`.
pub data Strategy : Type 0 where
  field_rename scalar_to_object object_to_scalar singleton_array_to_object : Strategy
  object_to_singleton_array fields_to_map map_to_fields to_annotation to_label : Strategy
  from_annotation from_label enum_remap default_value constant delete json_patch : Strategy
  for_each type_coerce scalar_to_fields fields_to_scalar array_to_map_by_key : Strategy
  map_to_array_by_key numeric_scale list_join list_split quantity duration : Strategy
  map_key_rename cel branch_map : Strategy
  other : String → Strategy

-- The policy on fields that no rule accounts for; any text but "Warn" acts as "Error".
pub data UnmappedFieldPolicy : Type 0 where
  error warn unset : UnmappedFieldPolicy
  other : String → UnmappedFieldPolicy

-- Which schema declares a field; a text that no constant names is `other`.
pub data Side : Type 0 where
  hub spoke : Side
  other : String → Side

pub record RuleWhen : Type 0 where
  pub path : FieldPath
  pub equals : Json

pub record EnumValueMapping : Type 0 where
  pub hub : Json
  pub spoke : Json

-- JSONPatchOp, where a nil value is `none`
pub record JsonPatchOp : Type 0 where
  pub op : String
  pub path : String
  pub from : String
  pub value : Option Json

-- RuleParams, a constructor for each struct with its fields in the order of the source; `no_params`
-- is nil.
mutual
  pub data RuleParams : Type 0 where
    no_params : RuleParams
    field_rename : (hub_path spoke_path : FieldPath) → RuleParams
    scalar_to_object object_to_scalar :
        (hub_path spoke_path : FieldPath) (key : String) (defaults : Object) → RuleParams
    singleton_array_to_object object_to_singleton_array :
        (hub_path spoke_path : FieldPath) → RuleParams
    fields_to_map :
        (hub_paths : List FieldPath) (spoke_map_path : FieldPath) (key_names : Map String)
        (on_unknown_spoke_key : UnknownKeyPolicy)
        → RuleParams
    map_to_fields :
        (hub_map_path : FieldPath) (spoke_paths : List FieldPath) (key_names : Map String)
        (on_unknown_hub_key : UnknownKeyPolicy)
        → RuleParams
    to_metadata :
        (hub_path : FieldPath) (key serialization : String) (restore_on_reverse : Bool) → RuleParams
    from_metadata :
        (spoke_path : FieldPath) (key serialization : String) (stash_on_reverse : Bool) → RuleParams
    enum_remap :
        (path : FieldPath) (mapping : List EnumValueMapping)
        (on_unmapped_hub_value on_unmapped_spoke_value : UnknownKeyPolicy)
        → RuleParams
    default_value constant : (path : FieldPath) (exists_on : Side) (value : Json) → RuleParams
    delete : (path : FieldPath) (exists_on : Side) → RuleParams
    json_patch :
        (hub_to_spoke spoke_to_hub : List JsonPatchOp) (lossless_override : Bool) → RuleParams
    for_each : (hub_items_path spoke_items_path : FieldPath) (rules : Rules) → RuleParams
    type_coerce : (path : FieldPath) (on_fractional_integer : FractionalIntegerPolicy) → RuleParams
    scalar_to_fields :
        (hub_path : FieldPath) (pattern : String) (spoke_fields : Map FieldPath)
        (join_template : String) (lossless_override : Bool)
        → RuleParams
    fields_to_scalar :
        (hub_fields : Map FieldPath) (pattern : String) (spoke_path : FieldPath)
        (join_template : String) (lossless_override : Bool)
        → RuleParams
    array_to_map_by_key map_to_array_by_key :
        (hub_path spoke_path : FieldPath) (key_field : String) → RuleParams
    numeric_scale : (hub_path spoke_path : FieldPath) (factor : Float64) → RuleParams
    list_join list_split : (hub_path spoke_path : FieldPath) (separator : String) → RuleParams
    quantity duration : (hub_path spoke_path : FieldPath) → RuleParams
    map_key_rename : (hub_path spoke_path : FieldPath) (renames : Map String) → RuleParams
    cel : (hub_paths spoke_paths : List FieldPath) (hub_to_spoke spoke_to_hub : String) → RuleParams
    branch_map :
        (hub_path spoke_path : FieldPath) (discriminator : String) (branches : BranchMappings)
        → RuleParams

  -- []BranchMapping
  pub data BranchMappings : Type 0 where
    no_mappings : BranchMappings
    mapping :
        (hub_branch spoke_branch hub_discriminator_value spoke_discriminator_value : String)
        (rules : Rules) (rest : BranchMappings)
        → BranchMappings

  -- Rule, without its reason, which nothing reads
  pub data Rule : Type 0 where
    rule :
        (strategy : Strategy) (params : RuleParams) (acknowledge_lossy : Bool) (source_index : ℕ)
        (when : Option RuleWhen)
        → Rule

  -- []Rule
  pub data Rules : Type 0 where
    no_rules : Rules
    rule_and : Rule → Rules → Rules

pub record RuleSet : Type 0 where
  pub hub_version : String
  pub spoke_version : String
  pub rules : Rules
  pub unmapped_field_policy : UnmappedFieldPolicy
