-- ===== src/Engine/Compile/Values.antt =====
-- pkg/engine/compile.go: the resolvers of rules on the value of one field.
use declarative_conversion_o.Prelude.{
  ℕ, String, Bool, true, false, not, ◌&&◌, ◌||◌, none, some, List, [], ◌∷◌, ◌==◌, if◌then◌else◌,
  any,
}
use declarative_conversion_o.Prelude.Int.{pos}
use declarative_conversion_o.Prelude.Assoc.{Map, insert}
use declarative_conversion_o.Engine.Json.{Json, Float64}
use declarative_conversion_o.Engine.Failure.{FieldPath}
use declarative_conversion_o.Engine.Kind.{
  FieldKind, UnknownKeyPolicy, FractionalIntegerPolicy, is_error, is_coercible_scalar,
  normalize_fractional_policy,
}
use declarative_conversion_o.Engine.Runtime.{Runtime}
use declarative_conversion_o.Engine.Ops.Values.{enum_key}
use declarative_conversion_o.Engine.Op.{Op}
use declarative_conversion_o.Engine.Schema.{Schema}
use declarative_conversion_o.Engine.Problem.{
  not_coercible, not_numeric, bad_fractional_policy, zero_factor, not_a_pair, ambiguous_enum,
}
use declarative_conversion_o.Engine.Diagnostics.{LosslessVerdict, verdict}
use declarative_conversion_o.Engine.Rule.{Side, EnumValueMapping}
use declarative_conversion_o.Engine.Compile.Claims.{
  ◌|>◌, Log, Resolved, resolved, add_error_if, add_warning, claim_hub, claim_spoke, find,
  check_path, kind_of, check_kind,
}

abbrev is_integer : FieldKind → Bool
is_integer FieldKind.integer = true
is_integer _ = false

abbrev is_number : FieldKind → Bool
is_number FieldKind.number = true
is_number _ = false

abbrev is_string : FieldKind → Bool
is_string FieldKind.string = true
is_string _ = false

abbrev is_spoke : Side → Bool
is_spoke Side.spoke = true
is_spoke _ = false

abbrev is_hub : Side → Bool
is_hub Side.hub = true
is_hub _ = false

-- The lookup and the claim on the side that declares the field.
abbrev on_side : String → ℕ → FieldPath → Bool → Schema → Schema → Log → Log
on_side strategy idx path spoke_side hub spoke log =
    if spoke_side
    then (log |> check_path idx strategy "" spoke path |> claim_spoke idx path)
    else (log |> check_path idx strategy "" hub path |> claim_hub idx path)

unfoldable pub resolve_default_value :
    ℕ → FieldPath → Side → Json → Schema → Schema → Log → Resolved
resolve_default_value idx path exists_on value hub spoke log =
    let inject = some (Op.inject_default path value) in
    let log' = on_side "DefaultValue" idx path (is_spoke exists_on) hub spoke log in
    if is_spoke exists_on
    then resolved inject (some Op.drop_field) (verdict true false) log'
    else resolved (some Op.drop_field) inject (verdict false true) log'

unfoldable pub resolve_constant : ℕ → FieldPath → Side → Json → Schema → Schema → Log → Resolved
resolve_constant idx path exists_on value hub spoke log =
    let inject = some (Op.inject_constant path value) in
    let log' = on_side "Constant" idx path (is_spoke exists_on) hub spoke log in
    if is_spoke exists_on
    then resolved inject (some Op.drop_field) (verdict true false) log'
    else resolved (some Op.drop_field) inject (verdict false true) log'

-- Both operations drop; only the side whose data goes is lossy.
unfoldable pub resolve_delete : ℕ → FieldPath → Side → Schema → Schema → Log → Resolved
resolve_delete idx path exists_on hub spoke log =
    let log' = on_side "Delete" idx path (is_spoke exists_on) hub spoke log in
    let lossless = if is_hub exists_on then verdict false true else verdict true false in
    resolved (some Op.drop_field) (some Op.drop_field) lossless log'

abbrev check_policy : ℕ → FractionalIntegerPolicy → Log → Log
check_policy idx (FractionalIntegerPolicy.other p) log =
    add_error_if true idx bad_fractional_policy log
check_policy idx _ log = log

abbrev is_error_policy : FractionalIntegerPolicy → Bool
is_error_policy FractionalIntegerPolicy.error = true
is_error_policy _ = false

unfoldable pub resolve_type_coerce :
    ℕ → FieldPath → FractionalIntegerPolicy → Schema → Schema → Log → Resolved
unfolding normalize_fractional_policy is_coercible_scalar
resolve_type_coerce idx path policy hub spoke log =
    let frac = normalize_fractional_policy policy in
    let hub_kind = kind_of (find hub path) in
    let spoke_kind = kind_of (find spoke path) in
    resolved (some (Op.coerce path spoke_kind frac)) (some (Op.coerce path hub_kind frac))
      (verdict (is_error_policy frac || not (is_integer spoke_kind))
        (is_error_policy frac || not (is_integer hub_kind)))
      (log
        |> check_path idx "TypeCoerce" "hub" hub path
        |> check_kind (find hub path) is_coercible_scalar idx
            (not_coercible "TypeCoerce" "hub" path)
        |> check_path idx "TypeCoerce" "spoke" spoke path
        |> check_kind (find spoke path) is_coercible_scalar idx
            (not_coercible "TypeCoerce" "spoke" path)
        |> claim_hub idx path
        |> claim_spoke idx path
        |> check_policy idx frac)

abbrev or_error : UnknownKeyPolicy → UnknownKeyPolicy
or_error UnknownKeyPolicy.unset = UnknownKeyPolicy.error
or_error p = p

abbrev is_numeric : FieldKind → Bool
is_numeric kind = is_integer kind || is_number kind

abbrev pair_verdict : Bool → LosslessVerdict
pair_verdict hub_is_string = verdict hub_is_string (not hub_is_string)

-- resolveStringIntegerPair; `make src dst to_integer` is the operation.
unfoldable pub resolve_string_integer_pair :
    String
    → (FieldPath → FieldPath → Bool → Op)
    → ℕ
    → FieldPath
    → FieldPath
    → Schema
    → Schema
    → Log
    → Resolved
resolve_string_integer_pair name make idx hub_path spoke_path hub spoke log =
    let hub_kind = kind_of (find hub hub_path) in
    let spoke_kind = kind_of (find spoke spoke_path) in
    let from_string = is_string hub_kind && is_integer spoke_kind in
    let from_integer = is_integer hub_kind && is_string spoke_kind in
    let log' =
      log
      |> check_path idx name "hub" hub hub_path
      |> check_path idx name "spoke" spoke spoke_path
      |> add_error_if (not from_string && not from_integer) idx
          (not_a_pair name hub_path hub_kind spoke_path spoke_kind)
      |> claim_hub idx hub_path
      |> claim_spoke idx spoke_path in
    if from_string || from_integer
    then resolved (some (make hub_path spoke_path from_string))
        (some (make spoke_path hub_path (not from_string))) (pair_verdict from_string) log'
    else resolved none none (verdict false false) log'

module _ (rt : Runtime) where
  abbrev hub_to_spoke_table : List EnumValueMapping → Map Json → Map Json
  hub_to_spoke_table [] table = table
  hub_to_spoke_table (m ∷ ms) table =
      hub_to_spoke_table ms (insert (enum_key rt m.hub) m.spoke table)

  abbrev spoke_to_hub_table : List EnumValueMapping → Map Json → Map Json
  spoke_to_hub_table [] table = table
  spoke_to_hub_table (m ∷ ms) table =
      spoke_to_hub_table ms (insert (enum_key rt m.spoke) m.hub table)

  -- Whether no value of the spoke stands in two mappings.
  abbrev injective_enum : List EnumValueMapping → Bool
  injective_enum [] = true
  injective_enum (m ∷ ms) =
      not (any (λ o. enum_key rt o.spoke == enum_key rt m.spoke) ms) && injective_enum ms

  abbrev warn_ambiguous : Bool → ℕ → Log → Log
  warn_ambiguous true idx log = log
  warn_ambiguous false idx log = add_warning idx ambiguous_enum log

  unfoldable pub resolve_enum_remap :
      ℕ
      → FieldPath
      → List EnumValueMapping
      → UnknownKeyPolicy
      → UnknownKeyPolicy
      → Schema
      → Schema
      → Log
      → Resolved
  resolve_enum_remap idx path mapping hub_policy spoke_policy hub spoke log =
      let on_hub = or_error hub_policy in
      let on_spoke = or_error spoke_policy in
      let injective = injective_enum mapping in
      resolved (some (Op.remap_enum path (hub_to_spoke_table mapping []) on_hub))
        (some (Op.remap_enum path (spoke_to_hub_table mapping []) on_spoke))
        (verdict (is_error on_hub) (is_error on_spoke && injective))
        (log
          |> check_path idx "EnumRemap" "hub" hub path
          |> check_path idx "EnumRemap" "spoke" spoke path
          |> claim_hub idx path
          |> claim_spoke idx path
          |> warn_ambiguous injective idx)

  unfoldable pub resolve_numeric_scale :
      ℕ → FieldPath → FieldPath → Float64 → Schema → Schema → Log → Resolved
  resolve_numeric_scale idx hub_path spoke_path factor hub spoke log =
      let hub_kind = kind_of (find hub hub_path) in
      let spoke_kind = kind_of (find spoke spoke_path) in
      resolved (some (Op.numeric_scale hub_path spoke_path factor false (is_integer spoke_kind)))
        (some (Op.numeric_scale spoke_path hub_path factor true (is_integer hub_kind)))
        (verdict (is_number spoke_kind) (is_number hub_kind))
        (log
          |> add_error_if (rt.float_eq factor (rt.of_int (pos 0))) idx zero_factor
          |> check_path idx "NumericScale" "hub" hub hub_path
          |> check_kind (find hub hub_path) is_numeric idx
              (not_numeric "NumericScale" "hub" hub_path)
          |> check_path idx "NumericScale" "spoke" spoke spoke_path
          |> check_kind (find spoke spoke_path) is_numeric idx
              (not_numeric "NumericScale" "spoke" spoke_path)
          |> claim_hub idx hub_path
          |> claim_spoke idx spoke_path)
