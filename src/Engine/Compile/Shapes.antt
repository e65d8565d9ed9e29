-- ===== src/Engine/Compile/Shapes.antt =====
-- pkg/engine/compile.go: the resolvers of rules that move a field, wrap it, or gather fields in a
-- map.
use declarative_conversion_o.Prelude.{
  ℕ, String, Bool, true, false, not, Option, none, some, List, [], ◌∷◌, ◌==◌, if◌then◌else◌, leb,
  is_empty,
}
use declarative_conversion_o.Prelude.Int.{ℤ, pos, negsuc}
use declarative_conversion_o.Prelude.Assoc.{Map}
use declarative_conversion_o.Engine.Json.{Object}
use declarative_conversion_o.Engine.Failure.{FieldPath}
use declarative_conversion_o.Engine.Kind.{UnknownKeyPolicy, is_error, kind_name}
use declarative_conversion_o.Engine.Op.{Op}
use declarative_conversion_o.Engine.Schema.{
  Schema, schema, Properties, no_properties, property, properties_of, classify,
}
use declarative_conversion_o.Engine.Problem.{type_mismatch}
use declarative_conversion_o.Engine.Diagnostics.{verdict}
use declarative_conversion_o.Engine.Compile.Claims.{
  ◌|>◌, Log, Resolved, resolved, add_error_if, claim_hub, claim_spoke, claim_hub_as, claim_spoke_as,
  claim_hub_subtree, claim_spoke_subtree, find, check_path,
}

-- The kinds of two nodes, where both are there.
abbrev same_kind : ℕ → FieldPath → FieldPath → Option Schema → Option Schema → Log → Log
same_kind idx hub_path spoke_path none s log = log
same_kind idx hub_path spoke_path (some h) none log = log
same_kind idx hub_path spoke_path (some h) (some s) log =
    let hk = (classify h).0 in
    let sk = (classify s).0 in
    add_error_if (not (kind_name hk == kind_name sk)) idx (type_mismatch hub_path hk spoke_path sk)
      log

unfoldable pub resolve_field_rename : ℕ → FieldPath → FieldPath → Schema → Schema → Log → Resolved
resolve_field_rename idx hub_path spoke_path hub spoke log =
    resolved (some (Op.rename hub_path spoke_path)) (some (Op.rename spoke_path hub_path))
      (verdict true true)
      (log
        |> check_path idx "FieldRename" "" hub hub_path
        |> check_path idx "FieldRename" "" spoke spoke_path
        |> same_kind idx hub_path spoke_path (find hub hub_path) (find spoke spoke_path)
        |> claim_hub idx hub_path
        |> claim_spoke idx spoke_path)

unfoldable extra_keys : Properties → String → List String
extra_keys no_properties exclude = []
extra_keys (property key s ps) exclude =
    let rest = extra_keys ps exclude in if key == exclude then rest else key ∷ rest

abbrev no_extra_keys : Option Schema → String → Bool
no_extra_keys none key = true
no_extra_keys (some s) key = is_empty (extra_keys (properties_of s) key)

unfoldable pub resolve_scalar_to_object :
    ℕ → FieldPath → FieldPath → String → Object → Schema → Schema → Log → Resolved
unfolding extra_keys
resolve_scalar_to_object idx hub_path spoke_path key defaults hub spoke log =
    let node = find spoke spoke_path in
    resolved (some (Op.wrap_scalar hub_path spoke_path key defaults))
      (some (Op.unwrap_scalar spoke_path hub_path key)) (verdict true (no_extra_keys node key))
      (log
        |> check_path idx "ScalarToObject" "hub" hub hub_path
        |> check_path idx "ScalarToObject" "spoke" spoke spoke_path
        |> claim_hub idx hub_path
        |> claim_spoke_subtree "spoke" idx spoke_path node)

unfoldable pub resolve_object_to_scalar :
    ℕ → FieldPath → FieldPath → String → Object → Schema → Schema → Log → Resolved
unfolding extra_keys
resolve_object_to_scalar idx hub_path spoke_path key defaults hub spoke log =
    let node = find hub hub_path in
    resolved (some (Op.unwrap_scalar hub_path spoke_path key))
      (some (Op.wrap_scalar spoke_path hub_path key defaults))
      (verdict (no_extra_keys node key) true)
      (log
        |> check_path idx "ObjectToScalar" "hub" hub hub_path
        |> check_path idx "ObjectToScalar" "spoke" spoke spoke_path
        |> claim_hub_subtree "hub" idx hub_path node
        |> claim_spoke idx spoke_path)

abbrev at_most_one : Option ℤ → Bool
at_most_one none = false
at_most_one (some (pos n)) = leb n 1
at_most_one (some (negsuc n)) = true

-- node.MaxItems
abbrev single_item : Option Schema → Bool
single_item none = false
single_item (some (schema f e ps)) = at_most_one f.max_items

-- resolveSingletonArrayToObject with the array on the hub
unfoldable pub resolve_singleton_array_to_object :
    ℕ → FieldPath → FieldPath → Schema → Schema → Log → Resolved
resolve_singleton_array_to_object idx hub_path spoke_path hub spoke log =
    resolved (some (Op.array_first_to_object hub_path spoke_path))
      (some (Op.object_to_singleton_array spoke_path hub_path))
      (verdict (single_item (find hub hub_path)) true)
      (log
        |> check_path idx "" "array side" hub hub_path
        |> check_path idx "" "object side" spoke spoke_path
        |> claim_hub_as "array-side" idx hub_path
        |> claim_spoke_subtree "object-side" idx spoke_path (find spoke spoke_path))

-- The same with the array on the spoke.
unfoldable pub resolve_object_to_singleton_array :
    ℕ → FieldPath → FieldPath → Schema → Schema → Log → Resolved
resolve_object_to_singleton_array idx hub_path spoke_path hub spoke log =
    resolved (some (Op.object_to_singleton_array hub_path spoke_path))
      (some (Op.array_first_to_object spoke_path hub_path))
      (verdict true (single_item (find spoke spoke_path)))
      (log
        |> check_path idx "" "array side" spoke spoke_path
        |> check_path idx "" "object side" hub hub_path
        |> claim_spoke_as "array-side" idx spoke_path
        |> claim_hub_subtree "object-side" idx hub_path (find hub hub_path))

abbrev or_error : UnknownKeyPolicy → UnknownKeyPolicy
or_error UnknownKeyPolicy.unset = UnknownKeyPolicy.error
or_error p = p

-- The loop over the fields of one side.
unfoldable pub claim_hub_fields : String → String → ℕ → List FieldPath → Schema → Log → Log
claim_hub_fields strategy side idx [] hub log = log
claim_hub_fields strategy side idx (path ∷ paths) hub log =
    log
    |> check_path idx strategy side hub path
    |> claim_hub idx path
    |> claim_hub_fields strategy side idx paths hub

unfoldable pub claim_spoke_fields : String → String → ℕ → List FieldPath → Schema → Log → Log
claim_spoke_fields strategy side idx [] spoke log = log
claim_spoke_fields strategy side idx (path ∷ paths) spoke log =
    log
    |> check_path idx strategy side spoke path
    |> claim_spoke idx path
    |> claim_spoke_fields strategy side idx paths spoke

unfoldable pub resolve_fields_to_map :
    ℕ
    → List FieldPath
    → FieldPath
    → Map String
    → UnknownKeyPolicy
    → Schema
    → Schema
    → Log
    → Resolved
unfolding claim_hub_fields
resolve_fields_to_map idx hub_paths map_path key_names policy hub spoke log =
    let on_unknown = or_error policy in
    resolved (some (Op.collapse_to_map hub_paths map_path key_names))
      (some (Op.expand_from_map map_path hub_paths key_names on_unknown))
      (verdict true (is_error on_unknown))
      (log
        |> claim_hub_fields "FieldsToMap" "" idx hub_paths hub
        |> check_path idx "FieldsToMap" "" spoke map_path
        |> claim_spoke_subtree "spoke" idx map_path (find spoke map_path))

unfoldable pub resolve_map_to_fields :
    ℕ
    → FieldPath
    → List FieldPath
    → Map String
    → UnknownKeyPolicy
    → Schema
    → Schema
    → Log
    → Resolved
unfolding claim_spoke_fields
resolve_map_to_fields idx map_path spoke_paths key_names policy hub spoke log =
    let on_unknown = or_error policy in
    resolved (some (Op.expand_from_map map_path spoke_paths key_names on_unknown))
      (some (Op.collapse_to_map spoke_paths map_path key_names))
      (verdict (is_error on_unknown) true)
      (log
        |> check_path idx "MapToFields" "" hub map_path
        |> claim_hub_subtree "hub" idx map_path (find hub map_path)
        |> claim_spoke_fields "MapToFields" "" idx spoke_paths spoke)
