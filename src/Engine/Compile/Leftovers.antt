-- ===== src/Engine/Compile/Leftovers.antt =====
-- pkg/engine/compile.go: the fields that no rule accounts for, at the end of resolveAndBuildOps.
use declarative_conversion_o.Prelude.{
  Bool, true, false, ◌&&◌, not, Option, none, some, List, [], ◌∷◌, ◌++◌, ◌==◌, if◌then◌else◌,
}
use declarative_conversion_o.Prelude.Assoc.{Map, lookup, insert}
use declarative_conversion_o.Engine.Path.{path_string}
use declarative_conversion_o.Engine.Kind.{kind_name}
use declarative_conversion_o.Engine.Op.{Op}
use declarative_conversion_o.Engine.Schema.{Schema, LeafField, flatten_schema, build_known_tree}
use declarative_conversion_o.Engine.Known.{merge_known_trees}
use declarative_conversion_o.Engine.Diagnostics.{
  Severity, Diagnostic, uncovered_field_diag, hub_side, spoke_side, LosslessVerdict, RuleResult,
}
use declarative_conversion_o.Engine.Rule.{UnmappedFieldPolicy}
use declarative_conversion_o.Engine.Compile.Claims.{Claimed, is_claimed}

-- The state of resolveAndBuildOps, and in the end its results.
pub record Built : Type 0 where
  pub to_spoke : List Op
  pub to_hub : List Op
  pub results : List RuleResult
  pub diags : List Diagnostic
  pub lossless : LosslessVerdict
  pub claimed_hub : Claimed
  pub claimed_spoke : Claimed

abbrev pub is_warn : UnmappedFieldPolicy → Bool
is_warn UnmappedFieldPolicy.warn = true
is_warn _ = false

abbrev pub severity_of : UnmappedFieldPolicy → Severity
severity_of policy = if is_warn policy then Severity.warning else Severity.error

-- spokeByPath: the last leaf of a path wins.
unfoldable pub by_path : List LeafField → Map LeafField → Map LeafField
by_path [] m = m
by_path (leaf ∷ leaves) m = by_path leaves (insert (path_string leaf.path) leaf m)

abbrev pub same_bool : Bool → Bool → Bool
same_bool true b = b
same_bool false b = not b

abbrev pub same_shape : LeafField → LeafField → Bool
same_shape a b =
    kind_name a.kind == kind_name b.kind
    && same_bool a.is_opaque b.is_opaque
    && (a.construct == b.construct)

-- The spoke has an unclaimed leaf of the same shape at the path.
abbrev pub has_twin : LeafField → Option LeafField → Bool → Bool
has_twin leaf none claimed = false
has_twin leaf (some twin) claimed = not claimed && same_shape twin leaf

abbrev pub cover : LeafField → Built → Built
cover leaf b = record b {
  to_spoke = b.to_spoke ++ Op.identity leaf.path ∷ [];
  to_hub = b.to_hub ++ Op.identity leaf.path ∷ [];
  claimed_hub = path_string leaf.path ∷ b.claimed_hub;
  claimed_spoke = path_string leaf.path ∷ b.claimed_spoke;
}

abbrev pub uncovered_hub : UnmappedFieldPolicy → LeafField → Built → Built
uncovered_hub policy leaf b = record b {
  lossless = record b.lossless { hub_to_spoke = b.lossless.hub_to_spoke && is_warn policy };
  diags =
      b.diags
      ++ uncovered_field_diag (severity_of policy) hub_side (path_string leaf.path) leaf.construct
        ∷ [];
}

abbrev pub uncovered_spoke : UnmappedFieldPolicy → LeafField → Built → Built
uncovered_spoke policy leaf b = record b {
  lossless = record b.lossless { spoke_to_hub = b.lossless.spoke_to_hub && is_warn policy };
  diags =
      b.diags
      ++ uncovered_field_diag (severity_of policy) spoke_side (path_string leaf.path) leaf.construct
        ∷ [];
}

-- One leaf of the hub.
unfoldable pub scan_hub_leaf : UnmappedFieldPolicy → Map LeafField → LeafField → Built → Built
scan_hub_leaf policy spokes leaf b =
    let key = path_string leaf.path in
    if is_claimed b.claimed_hub key
    then b
    else if has_twin leaf (lookup key spokes) (is_claimed b.claimed_spoke key)
    then cover leaf b
    else uncovered_hub policy leaf b

unfoldable pub scan_hub : UnmappedFieldPolicy → Map LeafField → List LeafField → Built → Built
unfolding scan_hub_leaf
scan_hub policy spokes [] b = b
scan_hub policy spokes (leaf ∷ leaves) b =
    scan_hub policy spokes leaves (scan_hub_leaf policy spokes leaf b)

-- One leaf of the spoke.
unfoldable pub scan_spoke_leaf : UnmappedFieldPolicy → LeafField → Built → Built
scan_spoke_leaf policy leaf b =
    if is_claimed b.claimed_spoke (path_string leaf.path) then b else uncovered_spoke policy leaf b

unfoldable pub scan_spoke : UnmappedFieldPolicy → List LeafField → Built → Built
unfolding scan_spoke_leaf
scan_spoke policy [] b = b
scan_spoke policy (leaf ∷ leaves) b = scan_spoke policy leaves (scan_spoke_leaf policy leaf b)

-- The passthrough of undeclared fields comes last in both directions.
unfoldable pub add_passthrough : Schema → Schema → Built → Built
add_passthrough hub spoke b =
    let pass =
      Op.passthrough_unknown (merge_known_trees (build_known_tree hub) (build_known_tree spoke)) in
    record b { to_spoke = b.to_spoke ++ pass ∷ []; to_hub = b.to_hub ++ pass ∷ [] }

unfoldable pub finish : UnmappedFieldPolicy → Schema → Schema → Built → Built
unfolding scan_hub scan_spoke by_path add_passthrough
finish policy hub spoke b =
    let spokes = flatten_schema (some spoke) in
    let scanned = scan_hub policy (by_path spokes []) (flatten_schema (some hub)) b in
    add_passthrough hub spoke (scan_spoke policy spokes scanned)
