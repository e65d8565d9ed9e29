-- ===== src/Engine/Compile/Escapes.antt =====
-- pkg/engine/compile.go: the resolvers of rules whose meaning the engine cannot check: patterns with
-- templates, JSON patches and CEL expressions.
use declarative_conversion_o.Prelude.{
  ℕ, String, Bool, true, false, not, ◌&&◌, ◌||◌, Option, none, some, List, [], ◌∷◌, ◌++◌, ◌==◌, any,
  if◌then◌else◌, is_empty, is_none, and_then,
}
use declarative_conversion_o.Prelude.Assoc.{Map, insert}
use declarative_conversion_o.Engine.Json.{Json, str, arr, Items, nil, cons, object}
use declarative_conversion_o.Engine.Failure.{FieldPath}
use declarative_conversion_o.Engine.Path.{path_string, field_path_from_json_pointer}
use declarative_conversion_o.Engine.Kind.{FieldKind, is_coercible_scalar}
use declarative_conversion_o.Engine.Runtime.{Runtime, Regexp, Template, Patch, Program}
use declarative_conversion_o.Engine.Op.{Op}
use declarative_conversion_o.Engine.Schema.{Schema, classify}
use declarative_conversion_o.Engine.Problem.{
  not_coercible, invalid_pattern, invalid_template, no_group, unverified, bad_patch, no_paths,
  no_expression, bad_expression,
}
use declarative_conversion_o.Engine.Diagnostics.{verdict}
use declarative_conversion_o.Engine.Rule.{JsonPatchOp}
use declarative_conversion_o.Engine.Compile.Claims.{
  ◌|>◌, Log, Resolved, resolved, add_error_if, add_warning, claim_hub, claim_spoke, find,
  check_path,
}
use declarative_conversion_o.Engine.Compile.Shapes.{claim_hub_fields, claim_spoke_fields}

-- Fields of a rule that name no capture group of the pattern.
unfoldable check_groups : String → ℕ → Map FieldPath → List String → Log → Log
check_groups strategy idx [] names log = log
check_groups strategy idx ((name, path) ∷ fields) names log =
    log
    |> add_error_if (not (not (name == "") && any (λ n. n == name) names)) idx
        (no_group strategy name)
    |> check_groups strategy idx fields names

abbrev check_pattern : String → ℕ → Map FieldPath → Option Regexp → Log → Log
check_pattern strategy idx fields none log = log
check_pattern strategy idx fields (some re) log = check_groups strategy idx fields re.names log

-- A field that was not found is not claimed.
abbrev claim_found : Bool → String → String → ℕ → FieldPath → Option Schema → Log → Log
claim_found on_hub strategy side idx path none log = log
claim_found on_hub strategy side idx path (some node) log =
    let kind = (classify node).0 in
    let log' =
      add_error_if (not (is_coercible_scalar kind)) idx (not_coercible strategy side path kind)
        log in
    if on_hub then claim_hub idx path log' else claim_spoke idx path log'

unfoldable claim_group_fields : Bool → String → String → ℕ → Map FieldPath → Schema → Log → Log
unfolding is_coercible_scalar
claim_group_fields on_hub strategy side idx [] root log = log
claim_group_fields on_hub strategy side idx ((name, path) ∷ fields) root log =
    log
    |> check_path idx strategy side root path
    |> claim_found on_hub strategy side idx path (find root path)
    |> claim_group_fields on_hub strategy side idx fields root

abbrev with_kind : String → Option Schema → Map FieldKind → Map FieldKind
with_kind name none kinds = kinds
with_kind name (some node) kinds = insert name (classify node).0 kinds

unfoldable pub kinds_of : Map FieldPath → Schema → Map FieldKind → Map FieldKind
kinds_of [] root kinds = kinds
kinds_of ((name, path) ∷ fields) root kinds =
    kinds_of fields root (with_kind name (find root path) kinds)

abbrev split_op : FieldPath → Map FieldPath → Map FieldKind → Option Regexp → Option Op
split_op source fields kinds none = none
split_op source fields kinds (some re) = some (Op.split_field source re fields kinds)

abbrev join_op : Map FieldPath → FieldPath → Option Template → Option Op
join_op fields dest none = none
join_op fields dest (some tmpl) = some (Op.join_fields fields dest tmpl)

-- The pointers that a patch mentions, each once, as paths: those in "path", and those in "path" or
-- "from".
unfoldable pub dest_pointers : List String → List JsonPatchOp → List String
dest_pointers seen [] = []
dest_pointers seen (o ∷ ops) =
    let new = o.path ∷ dest_pointers (o.path ∷ seen) ops in
    let again = dest_pointers seen ops in if any (λ p. p == o.path) seen then again else new

abbrev add_pointer : String → List String → List String
add_pointer ptr all = if (ptr == "") || any (λ p. p == ptr) all then all else all ++ ptr ∷ []

unfoldable pub all_pointers : List String → List JsonPatchOp → List String
all_pointers all [] = all
all_pointers all (o ∷ ops) = all_pointers (add_pointer o.from (add_pointer o.path all)) ops

unfoldable pub to_paths : List String → List FieldPath
to_paths [] = []
to_paths (ptr ∷ ptrs) = field_path_from_json_pointer ptr ∷ to_paths ptrs

abbrev with_from : String → Map Json → Map Json
with_from from m = if from == "" then m else insert "from" (str from) m

abbrev with_value : Option Json → Map Json → Map Json
with_value none m = m
with_value (some v) m = insert "value" v m

unfoldable pub raw_patch : List JsonPatchOp → Items
raw_patch [] = nil
raw_patch (o ∷ ops) =
    cons
      (object (
        with_value o.value
          (with_from o.from (insert "path" (str o.path) (insert "op" (str o.op) [])))))
      (raw_patch ops)

-- A patch of no operations.
abbrev empty_patch : Patch
empty_patch = record { apply = λ doc. some doc }

-- A patch that does not decode is nil, and applying that changes nothing.
abbrev or_empty : Option Patch → Patch
or_empty none = empty_patch
or_empty (some p) = p

-- Each path is claimed once, on both sides.
unfoldable pub claim_both : ℕ → List String → List FieldPath → Log → Log
claim_both idx seen [] log = log
claim_both idx seen (path ∷ paths) log =
    let again = claim_both idx seen paths log in
    let new =
      log
      |> claim_hub idx path
      |> claim_spoke idx path
      |> claim_both idx (path_string path ∷ seen) paths in
    if any (λ k. k == path_string path) seen then again else new

module _ (rt : Runtime) where
  -- compileSplitJoin, on the claims of one side
  abbrev split_join :
      Bool → String → String → ℕ → String → String → Map FieldPath → Schema → Log → Log
  split_join on_hub strategy side idx pattern join_template fields root log =
      log
      |> add_error_if (is_none (rt.compile_regexp pattern)) idx (invalid_pattern strategy)
      |> add_error_if (is_none (rt.parse_template join_template)) idx (invalid_template strategy)
      |> check_pattern strategy idx fields (rt.compile_regexp pattern)
      |> claim_group_fields on_hub strategy side idx fields root

  unfoldable pub resolve_scalar_to_fields :
      ℕ → FieldPath → String → Map FieldPath → String → Bool → Schema → Schema → Log → Resolved
  unfolding check_groups claim_group_fields kinds_of
  resolve_scalar_to_fields idx hub_path pattern fields join_template lossless hub spoke log =
      resolved (split_op hub_path fields (kinds_of fields spoke []) (rt.compile_regexp pattern))
        (join_op fields hub_path (rt.parse_template join_template)) (verdict lossless lossless)
        (log
          |> check_path idx "ScalarToFields" "hub" hub hub_path
          |> claim_hub idx hub_path
          |> split_join false "ScalarToFields" "spoke" idx pattern join_template fields spoke
          |> add_warning idx (unverified "ScalarToFields"))

  unfoldable pub resolve_fields_to_scalar :
      ℕ → Map FieldPath → String → FieldPath → String → Bool → Schema → Schema → Log → Resolved
  unfolding check_groups claim_group_fields kinds_of
  resolve_fields_to_scalar idx fields pattern spoke_path join_template lossless hub spoke log =
      resolved (join_op fields spoke_path (rt.parse_template join_template))
        (split_op spoke_path fields (kinds_of fields hub []) (rt.compile_regexp pattern))
        (verdict lossless lossless)
        (log
          |> check_path idx "FieldsToScalar" "spoke" spoke spoke_path
          |> claim_spoke idx spoke_path
          |> split_join true "FieldsToScalar" "hub" idx pattern join_template fields hub
          |> add_warning idx (unverified "FieldsToScalar"))

  -- parsePatch, without the paths: no operations are the empty patch
  unfoldable pub parse_patch : List JsonPatchOp → Option Patch
  unfolding raw_patch
  parse_patch [] = some empty_patch
  parse_patch (o ∷ ops) = and_then (rt.marshal (arr (raw_patch (o ∷ ops)))) rt.decode_patch

  -- Where the operations do not marshal there are no paths.
  unfoldable pub patch_paths : List JsonPatchOp → List String → List FieldPath
  unfolding raw_patch to_paths
  patch_paths ops ptrs =
      if not (is_empty ops) && is_none (rt.marshal (arr (raw_patch ops))) then [] else to_paths ptrs

  unfoldable pub resolve_json_patch :
      ℕ → List JsonPatchOp → List JsonPatchOp → Bool → Log → Resolved
  unfolding dest_pointers all_pointers claim_both
  resolve_json_patch idx to_spoke to_hub lossless log =
      resolved
        (some (
          Op.json_patch (or_empty (parse_patch to_spoke))
            (patch_paths to_spoke (dest_pointers [] to_spoke))))
        (some (
          Op.json_patch (or_empty (parse_patch to_hub))
            (patch_paths to_hub (dest_pointers [] to_hub))))
        (verdict lossless lossless)
        (log
          |> add_error_if (is_none (parse_patch to_spoke)) idx (bad_patch "hubToSpoke")
          |> add_error_if (is_none (parse_patch to_hub)) idx (bad_patch "spokeToHub")
          |> add_warning idx (unverified "JSONPatch")
          |> claim_both idx [] (
              patch_paths to_spoke (all_pointers [] to_spoke)
              ++ patch_paths to_hub (all_pointers [] to_hub)))

  abbrev cel_op : List FieldPath → Option Program → Option Op
  cel_op dests none = none
  cel_op dests (some prg) = some (Op.cel prg dests)

  -- The program of an expression that is not empty.
  abbrev cel_program : String → Option Program
  cel_program expression = if expression == "" then none else rt.compile_cel expression

  abbrev check_expression : String → ℕ → String → Log → Log
  check_expression side idx expression log =
      add_error_if (not (expression == "") && is_none (rt.compile_cel expression)) idx
        (bad_expression side) log

  unfoldable pub resolve_cel :
      ℕ → List FieldPath → List FieldPath → String → String → Schema → Schema → Log → Resolved
  unfolding claim_hub_fields claim_spoke_fields
  resolve_cel idx hub_paths spoke_paths to_spoke to_hub hub spoke log =
      resolved (cel_op spoke_paths (cel_program to_spoke)) (cel_op hub_paths (cel_program to_hub))
        (verdict false false)
        (log
          |> add_error_if (is_empty hub_paths) idx (no_paths "hubPaths")
          |> add_error_if (is_empty spoke_paths) idx (no_paths "spokePaths")
          |> add_error_if (to_spoke == "") idx (no_expression "hubToSpoke")
          |> add_error_if (to_hub == "") idx (no_expression "spokeToHub")
          |> claim_hub_fields "CEL" "hub" idx hub_paths hub
          |> claim_spoke_fields "CEL" "spoke" idx spoke_paths spoke
          |> check_expression "hubToSpoke" idx to_spoke
          |> check_expression "spokeToHub" idx to_hub)
