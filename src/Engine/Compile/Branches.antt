-- ===== src/Engine/Compile/Branches.antt =====
-- pkg/engine/compile.go: resolveBranchMap, given what the rules of its branches are resolved to.
use declarative_conversion_o.Prelude.{
  ℕ, suc, String, Bool, true, not, ◌&&◌, ◌||◌, Option, none, some, List, [], ◌∷◌, ◌++◌, ◌==◌, map,
  any, if◌then◌else◌, is_none, is_empty,
}
use declarative_conversion_o.Engine.Failure.{FieldPath}
use declarative_conversion_o.Engine.Op.{Op, Ops, of_op_list, Branches, no_branches, branch}
use declarative_conversion_o.Engine.Schema.{
  Schema, Properties, property_of, properties_of, has_properties,
}
use declarative_conversion_o.Engine.Problem.{
  no_branch_mapping, no_branch_properties, no_discriminator, no_branch, in_branch,
}
use declarative_conversion_o.Engine.Diagnostics.{LosslessVerdict, verdict, and_verdict}
use declarative_conversion_o.Engine.Compile.Claims.{
  ◌|>◌, Log, Resolved, resolved, add, add_error, add_error_if, claim_hub, claim_spoke,
  claim_hub_subtree, claim_spoke_subtree, find, check_path,
}
use declarative_conversion_o.Engine.Compile.Leftovers.{Built}
use declarative_conversion_o.Engine.Compile.Nested.{lift_diagnostic}

-- A BranchMapping with what its rules, if there are any, are resolved to between two schemas.
pub record Mapping : Type 0 where
  pub hub_branch : String
  pub spoke_branch : String
  pub hub_discriminator_value : String
  pub spoke_discriminator_value : String
  pub nested : Option (Schema → Schema → Built)

-- compiledBranch
pub record CompiledBranch : Type 0 where
  pub src_branch : String
  pub dst_branch : String
  pub dst_discriminator : String
  pub nested : Ops

unfoldable pub to_branches : List CompiledBranch → Branches
to_branches [] = no_branches
to_branches (c ∷ cs) =
    branch c.src_branch c.dst_branch c.dst_discriminator c.nested (to_branches cs)

-- The variables of the loop over the branches.
pub record BranchState : Type 0 where
  pub hub_seen : List String
  pub spoke_seen : List String
  pub lossless : LosslessVerdict
  pub to_spoke : List CompiledBranch
  pub to_hub : List CompiledBranch
  pub log : Log

abbrev discriminator_value : String → String → String
discriminator_value explicit name = if explicit == "" then name else explicit

abbrev seen : List String → String → Bool
seen names name = any (λ n. n == name) names

abbrev pub nothing_built : Built
nothing_built = record {
  to_spoke = [];
  to_hub = [];
  results = [];
  diags = [];
  lossless = verdict true true;
  claimed_hub = [];
  claimed_spoke = [];
}

abbrev run_nested : Option (Schema → Schema → Built) → Schema → Schema → Built
run_nested none hub spoke = nothing_built
run_nested (some nested) hub spoke = nested hub spoke

abbrev compiled_if : Bool → CompiledBranch → List CompiledBranch
compiled_if b c = if b then c ∷ [] else []

abbrev log_if : Bool → (Log → Log) → Log → Log
log_if b f log = if b then f log else log

-- A mapping whose branches both exist; `first_hub` and `first_spoke` say that no mapping before it
-- names them.
abbrev with_branches :
    ℕ
    → FieldPath
    → FieldPath
    → Mapping
    → Bool
    → Bool
    → BranchState
    → Option Schema
    → Option Schema
    → BranchState
with_branches idx hub_path spoke_path m first_hub first_spoke s (some hub) (some spoke) =
    let hub_branch_path = hub_path ++ m.hub_branch ∷ [] in
    let spoke_branch_path = spoke_path ++ m.spoke_branch ∷ [] in
    let b = run_nested m.nested hub spoke in
    record s {
      lossless = and_verdict s.lossless b.lossless;
      to_spoke =
          s.to_spoke
          ++ compiled_if first_hub (record {
            src_branch = m.hub_branch;
            dst_branch = m.spoke_branch;
            dst_discriminator = discriminator_value m.spoke_discriminator_value m.spoke_branch;
            nested = of_op_list b.to_spoke;
          });
      to_hub =
          s.to_hub
          ++ compiled_if first_spoke (record {
            src_branch = m.spoke_branch;
            dst_branch = m.hub_branch;
            dst_discriminator = discriminator_value m.hub_discriminator_value m.hub_branch;
            nested = of_op_list b.to_hub;
          });
      log =
          s.log
          |> log_if first_hub (claim_hub_subtree "hub" idx hub_branch_path (some hub))
          |> log_if first_spoke (claim_spoke_subtree "spoke" idx spoke_branch_path (some spoke))
          |> add (
              map (lift_diagnostic (in_branch m.hub_branch) hub_branch_path spoke_branch_path)
                b.diags);
    }
with_branches idx hub_path spoke_path m first_hub first_spoke s _ _ = s

unfoldable pub resolve_branch :
    ℕ → FieldPath → FieldPath → Properties → Properties → ℕ → Mapping → BranchState → BranchState
unfolding lift_diagnostic
resolve_branch idx hub_path spoke_path hubs spokes bi m s =
    let hub = property_of m.hub_branch hubs in
    let spoke = property_of m.spoke_branch spokes in
    let noted : BranchState = record s {
      hub_seen = m.hub_branch ∷ s.hub_seen;
      spoke_seen = m.spoke_branch ∷ s.spoke_seen;
      lossless =
          verdict (s.lossless.hub_to_spoke && not (seen s.hub_seen m.hub_branch))
            (s.lossless.spoke_to_hub && not (seen s.spoke_seen m.spoke_branch));
      log =
          s.log
          |> add_error_if (is_none hub) idx (no_branch bi m.hub_branch "hub" hub_path)
          |> add_error_if (is_none spoke) idx (no_branch bi m.spoke_branch "spoke" spoke_path);
    } in
    with_branches idx hub_path spoke_path m (not (seen s.hub_seen m.hub_branch))
      (not (seen s.spoke_seen m.spoke_branch)) noted hub spoke

unfoldable pub resolve_branches :
    ℕ
    → FieldPath
    → FieldPath
    → Properties
    → Properties
    → ℕ
    → List Mapping
    → BranchState
    → BranchState
unfolding resolve_branch
resolve_branches idx hub_path spoke_path hubs spokes bi [] s = s
resolve_branches idx hub_path spoke_path hubs spokes bi (m ∷ ms) s =
    resolve_branches idx hub_path spoke_path hubs spokes (suc bi) ms
      (resolve_branch idx hub_path spoke_path hubs spokes bi m s)

abbrev check_discriminator : String → ℕ → String → FieldPath → Properties → Log → Log
check_discriminator discriminator idx side path ps log =
    add_error_if (is_none (property_of discriminator ps)) idx
      (no_discriminator discriminator side path) log

-- The operations, once the branches are done.
abbrev branch_ops : ℕ → FieldPath → FieldPath → String → BranchState → Resolved
branch_ops idx hub_path spoke_path discriminator s =
    let log' =
      log_if (not (discriminator == ""))
        (λ log.
          log
          |> claim_hub idx (hub_path ++ discriminator ∷ [])
          |> claim_spoke idx (spoke_path ++ discriminator ∷ []))
        s.log in
    if is_empty s.to_spoke
    then resolved none none s.lossless log'
    else resolved (some (Op.branch_map hub_path spoke_path discriminator (to_branches s.to_spoke)))
        (some (Op.branch_map spoke_path hub_path discriminator (to_branches s.to_hub))) s.lossless
        log'

abbrev with_unions :
    ℕ
    → FieldPath
    → FieldPath
    → String
    → List Mapping
    → Log
    → Option Schema
    → Option Schema
    → Resolved
with_unions idx hub_path spoke_path discriminator ms log (some hub) (some spoke) =
    let hubs = properties_of hub in
    let spokes = properties_of spoke in
    let checked =
      log_if (not (discriminator == ""))
        (λ l.
          l
          |> check_discriminator discriminator idx "hub" hub_path hubs
          |> check_discriminator discriminator idx "spoke" spoke_path spokes)
        log in
    let s : BranchState = record {
      hub_seen = [];
      spoke_seen = [];
      lossless = verdict true true;
      to_spoke = [];
      to_hub = [];
      log = checked;
    } in
    if not (has_properties hubs) || not (has_properties spokes)
    then resolved none none (verdict true true) (add_error idx no_branch_properties log)
    else branch_ops idx hub_path spoke_path discriminator
        (resolve_branches idx hub_path spoke_path hubs spokes 0 ms s)
with_unions idx hub_path spoke_path discriminator ms log _ _ =
    resolved none none (verdict true true) log

unfoldable pub resolve_branch_map :
    ℕ → FieldPath → FieldPath → String → List Mapping → Schema → Schema → Log → Resolved
unfolding resolve_branches to_branches
resolve_branch_map idx hub_path spoke_path discriminator ms hub spoke log =
    with_unions idx hub_path spoke_path discriminator ms
      (log
        |> check_path idx "BranchMap" "hub" hub hub_path
        |> check_path idx "BranchMap" "spoke" spoke spoke_path
        |> add_error_if (is_empty ms) idx no_branch_mapping)
      (find hub hub_path) (find spoke spoke_path)
