-- ===== src/Engine/Compile/Lists.antt =====
-- pkg/engine/compile.go: the resolvers of rules on arrays and free-form maps.
use declarative_conversion_o.Prelude.{
  ℕ, String, Bool, true, false, not, ◌||◌, Option, none, some, List, [], ◌∷◌, ◌++◌, ◌==◌,
  if◌then◌else◌, is_some,
}
use declarative_conversion_o.Prelude.Assoc.{Map, lookup, insert}
use declarative_conversion_o.Engine.Failure.{FieldPath}
use declarative_conversion_o.Engine.Kind.{FieldKind, is_coercible_scalar}
use declarative_conversion_o.Engine.Op.{Op}
use declarative_conversion_o.Engine.Schema.{Schema, classify, element_of, is_object}
use declarative_conversion_o.Engine.Problem.{
  not_a_string, not_an_array, items_not_coercible, not_a_map, no_renames, empty_rename_key,
  rename_not_injective,
}
use declarative_conversion_o.Engine.Diagnostics.{Diagnostic, errorf, verdict}
use declarative_conversion_o.Engine.Compile.Claims.{
  ◌|>◌, Log, Resolved, resolved, add, add_error, add_error_if, claim_hub, claim_spoke, find,
  check_path, check_kind,
}

unfoldable pub resolve_array_to_map_by_key :
    ℕ → FieldPath → FieldPath → String → Schema → Schema → Log → Resolved
resolve_array_to_map_by_key idx hub_path spoke_path key_field hub spoke log =
    resolved (some (Op.array_to_map_by_key hub_path spoke_path key_field))
      (some (Op.map_to_array_by_key spoke_path hub_path key_field)) (verdict true false)
      (log
        |> check_path idx "ArrayToMapByKey" "hub" hub hub_path
        |> check_path idx "ArrayToMapByKey" "spoke" spoke spoke_path
        |> claim_hub idx hub_path
        |> claim_spoke idx spoke_path)

unfoldable pub resolve_map_to_array_by_key :
    ℕ → FieldPath → FieldPath → String → Schema → Schema → Log → Resolved
resolve_map_to_array_by_key idx hub_path spoke_path key_field hub spoke log =
    resolved (some (Op.map_to_array_by_key hub_path spoke_path key_field))
      (some (Op.array_to_map_by_key spoke_path hub_path key_field)) (verdict false true)
      (log
        |> check_path idx "MapToArrayByKey" "hub" hub hub_path
        |> check_path idx "MapToArrayByKey" "spoke" spoke spoke_path
        |> claim_hub idx hub_path
        |> claim_spoke idx spoke_path)

abbrev is_array : FieldKind → Bool
is_array FieldKind.array = true
is_array _ = false

abbrev is_string : FieldKind → Bool
is_string FieldKind.string = true
is_string _ = false

-- The items of a node that is an array with a known item schema.
abbrev array_items : Schema → Option Schema
array_items node = if is_array (classify node).0 then element_of node else none

abbrev kind_of_items : Option Schema → FieldKind
kind_of_items none = FieldKind.unknown
kind_of_items (some items) = (classify items).0

abbrev item_kind : Option Schema → FieldKind
item_kind none = FieldKind.unknown
item_kind (some node) = kind_of_items (array_items node)

abbrev check_array_items : String → String → FieldPath → ℕ → Option Schema → Log → Log
check_array_items strategy side path idx none log =
    add_error idx (not_an_array strategy side path) log
check_array_items strategy side path idx (some items) log =
    let kind = (classify items).0 in
    add_error_if (not (is_coercible_scalar kind)) idx (items_not_coercible strategy side path kind)
      log

abbrev check_array : String → String → FieldPath → ℕ → Option Schema → Log → Log
check_array strategy side path idx none log = log
check_array strategy side path idx (some node) log =
    check_array_items strategy side path idx (array_items node) log

unfoldable pub resolve_list_join :
    ℕ → FieldPath → FieldPath → String → Schema → Schema → Log → Resolved
unfolding is_coercible_scalar
resolve_list_join idx hub_path spoke_path separator hub spoke log =
    let node = find hub hub_path in
    resolved (some (Op.join_list hub_path spoke_path separator))
      (some (Op.split_list spoke_path hub_path separator (item_kind node))) (verdict true true)
      (log
        |> check_path idx "ListJoin" "hub" hub hub_path
        |> check_array "ListJoin" "hub" hub_path idx node
        |> check_path idx "ListJoin" "spoke" spoke spoke_path
        |> check_kind (find spoke spoke_path) is_string idx
            (not_a_string "ListJoin" "spoke" spoke_path)
        |> claim_hub idx hub_path
        |> claim_spoke idx spoke_path)

unfoldable pub resolve_list_split :
    ℕ → FieldPath → FieldPath → String → Schema → Schema → Log → Resolved
unfolding is_coercible_scalar
resolve_list_split idx hub_path spoke_path separator hub spoke log =
    let node = find spoke spoke_path in
    resolved (some (Op.split_list hub_path spoke_path separator (item_kind node)))
      (some (Op.join_list spoke_path hub_path separator)) (verdict true true)
      (log
        |> check_path idx "ListSplit" "hub" hub hub_path
        |> check_kind (find hub hub_path) is_string idx (not_a_string "ListSplit" "hub" hub_path)
        |> check_path idx "ListSplit" "spoke" spoke spoke_path
        |> check_array "ListSplit" "spoke" spoke_path idx node
        |> claim_hub idx hub_path
        |> claim_spoke idx spoke_path)

abbrev check_map_node : ℕ → String → FieldPath → Option Schema → Log → Log
check_map_node idx side path none log = log
check_map_node idx side path (some node) log =
    let (kind, is_opaque) = classify node in
    add_error_if (not (is_object kind) || not is_opaque) idx (not_a_map side path kind) log

-- requireOpaqueMap
unfoldable pub require_opaque_map : ℕ → String → FieldPath → Schema → Log → Log
require_opaque_map idx side path root log =
    log
    |> check_path idx "MapKeyRename" side root path
    |> check_map_node idx side path (find root path)

-- The loop of `invertRenames`, with the map so far.
unfoldable pub invert_from :
    ℕ → Map String → Map String → List Diagnostic → Map String × List Diagnostic
invert_from idx [] rev diags = (rev, diags)
invert_from idx ((hub_key, spoke_key) ∷ renames) rev diags =
    let empty = invert_from idx renames rev (diags ++ errorf idx empty_rename_key ∷ []) in
    let twice =
      invert_from idx renames rev (diags ++ errorf idx (rename_not_injective spoke_key) ∷ []) in
    let new = invert_from idx renames (insert spoke_key hub_key rev) diags in
    if (hub_key == "") || (spoke_key == "")
    then empty
    else if is_some (lookup spoke_key rev)
    then twice
    else new

unfoldable pub invert_renames : ℕ → Map String → Map String × List Diagnostic
unfolding invert_from
invert_renames idx [] = ([], errorf idx no_renames ∷ [])
invert_renames idx (r ∷ renames) = invert_from idx (r ∷ renames) [] []

unfoldable pub resolve_map_key_rename :
    ℕ → FieldPath → FieldPath → Map String → Schema → Schema → Log → Resolved
unfolding require_opaque_map
resolve_map_key_rename idx hub_path spoke_path renames hub spoke log =
    let (rev, diags) = invert_renames idx renames in
    resolved (some (Op.map_key_rename hub_path spoke_path renames))
      (some (Op.map_key_rename spoke_path hub_path rev)) (verdict true true)
      (log
        |> require_opaque_map idx "hub" hub_path hub
        |> require_opaque_map idx "spoke" spoke_path spoke
        |> add diags
        |> claim_hub idx hub_path
        |> claim_spoke idx spoke_path)
