-- ===== src/Engine/Op.antt =====
-- The operations of a plan (pkg/engine/plan.go, ops.go, passthrough.go, mapkeyrename.go,
-- k8sunits.go, cel.go) as data, and the state that they run on.
use declarative_conversion_o.Prelude.{String, Bool, Option, List, [], ◌∷◌}
use declarative_conversion_o.Prelude.Assoc.{Map}
use declarative_conversion_o.Prelude.Result.{ok, ◌>>=◌}
use declarative_conversion_o.Engine.Json.{Json, Object, Float64}
use declarative_conversion_o.Engine.Failure.{FieldPath, Result}
use declarative_conversion_o.Engine.Path.{set_value}
use declarative_conversion_o.Engine.Kind.{FieldKind, UnknownKeyPolicy, FractionalIntegerPolicy}
use declarative_conversion_o.Engine.Known.{KnownTree}
use declarative_conversion_o.Engine.Runtime.{Regexp, Template, Patch, Program}

pub data Direction : Type 0 where
  hub_to_spoke spoke_to_hub : Direction

-- execContext. `input_json` is nil until the first patch asks for it.
pub record Context : Type 0 where
  pub input : Object
  pub output : Object
  pub input_json : Option String

-- return setValue(ctx.output, path, val)
unfoldable pub write : Context → FieldPath → Json → Result Context
write ctx path val = do out ← set_value ctx.output path val; ok (record ctx { output = out })

-- One constructor for each type that implements `Op`, its fields in the order of the source.
mutual
  pub data Op : Type 0 where
    identity : FieldPath → Op
    rename : (from to : FieldPath) → Op
    wrap_scalar : (scalar_path object_path : FieldPath) → String → Object → Op
    unwrap_scalar : (object_path scalar_path : FieldPath) → String → Op
    array_first_to_object : (array_path object_path : FieldPath) → Op
    object_to_singleton_array : (object_path array_path : FieldPath) → Op
    collapse_to_map : List FieldPath → FieldPath → Map String → Op
    expand_from_map : FieldPath → List FieldPath → Map String → UnknownKeyPolicy → Op
    stash_annotation : FieldPath → (metadata_field key serialization : String) → Op
    restore_annotation : FieldPath → (metadata_field key serialization : String) → Op
    remap_enum : FieldPath → Map Json → UnknownKeyPolicy → Op
    inject_default : FieldPath → Json → Op
    drop_field : Op
    strip_metadata_key : (metadata_field key : String) → Op
    inject_constant : FieldPath → Json → Op
    json_patch : Patch → List FieldPath → Op
    for_each : (src_items_path dst_items_path : FieldPath) → Ops → Op
    when : FieldPath → Json → Op → Op
    coerce : FieldPath → FieldKind → FractionalIntegerPolicy → Op
    split_field : FieldPath → Regexp → Map FieldPath → Map FieldKind → Op
    join_fields : Map FieldPath → FieldPath → Template → Op
    array_to_map_by_key : (array_path map_path : FieldPath) → String → Op
    map_to_array_by_key : (map_path array_path : FieldPath) → String → Op
    numeric_scale : (from_path to_path : FieldPath) → Float64 → (multiply round : Bool) → Op
    join_list : (array_path string_path : FieldPath) → String → Op
    split_list : (string_path array_path : FieldPath) → String → FieldKind → Op
    branch_map : (src_path dst_path : FieldPath) → String → Branches → Op
    map_key_rename : (src dst : FieldPath) → Map String → Op
    quantity : (src dst : FieldPath) → Bool → Op
    duration : (src dst : FieldPath) → Bool → Op
    cel : Program → List FieldPath → Op
    passthrough_unknown : KnownTree → Op

  -- []Op
  pub data Ops : Type 0 where
    done : Ops
    and_then : Op → Ops → Ops

  -- []compiledBranch: source branch, destination branch, destination discriminator, nested rules
  pub data Branches : Type 0 where
    no_branches : Branches
    branch : (src_branch dst_branch dst_discriminator : String) → Ops → Branches → Branches

unfoldable pub op_list : Ops → List Op
op_list done = []
op_list (and_then op ops) = op ∷ op_list ops

unfoldable pub of_op_list : List Op → Ops
of_op_list [] = done
of_op_list (op ∷ ops) = and_then op (of_op_list ops)

pub record Plan : Type 0 where
  pub hub_version : String
  pub spoke_version : String
  pub hub_to_spoke_ops : Ops
  pub spoke_to_hub_ops : Ops

-- (*Plan).ops
unfoldable pub plan_ops : Plan → Direction → Ops
plan_ops p hub_to_spoke = p.hub_to_spoke_ops
plan_ops p spoke_to_hub = p.spoke_to_hub_ops
