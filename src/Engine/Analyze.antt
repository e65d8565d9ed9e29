-- ===== src/Engine/Analyze.antt =====
-- pkg/engine/analyze.go and Compile of compile.go: from the rules of every spoke to a report with
-- the plans, over schemas that are normalised.
pub mod Plans
pub mod Untouched
use declarative_conversion_o.Prelude.{
  String, Bool, true, false, not, Option, none, some, List, [], ◌∷◌, ◌++◌, is_empty, if◌then◌else◌,
  keep, map,
}
use declarative_conversion_o.Prelude.Assoc.{Map, lookup, insert}
use declarative_conversion_o.Prelude.Result.{Result, ok, err, ◌>>=◌}
use declarative_conversion_o.Engine.Runtime.{Runtime}
use declarative_conversion_o.Engine.Op.{Plan, of_op_list}
use declarative_conversion_o.Engine.Schema.{Schema}
use declarative_conversion_o.Engine.Problem.{Problem, spoke_not_found, spoke_not_served}
use declarative_conversion_o.Engine.Diagnostics.{
  Severity, UncoveredSide, no_side, hub_side, spoke_side, Diagnostic, verdict, RuleResult,
  FieldCoverage, SpokeReport, AnalyzeReport,
}
use declarative_conversion_o.Engine.Platform.{
  PlatformInjectedPaths, check_authored_shadowing, check_rule_targets, sort_diagnostics,
}
use declarative_conversion_o.Engine.Required.{analyze_required_fields, hub_dest, spoke_dest}
use declarative_conversion_o.Engine.Rule.{Rules, RuleSet}
use declarative_conversion_o.Engine.Compile.{resolve_and_build_ops, effective_policy}
use declarative_conversion_o.Engine.Compile.Results.{severe, mild}
use declarative_conversion_o.Engine.Compile.Leftovers.{Built}

pub record VersionSchema : Type 0 where
  pub name : String
  pub served : Bool
  pub storage : Bool
  pub schema : Schema

pub data AnalyzeError : Type 0 where
  hub_not_found hub_not_storage : String → AnalyzeError

-- byName: the last version of a name wins.
unfoldable pub by_name : List VersionSchema → Map VersionSchema → Map VersionSchema
by_name [] m = m
by_name (v ∷ vs) m = by_name vs (insert v.name v m)

abbrev is_hub_side : UncoveredSide → Bool
is_hub_side hub_side = true
is_hub_side _ = false

abbrev is_spoke_side : UncoveredSide → Bool
is_spoke_side spoke_side = true
is_spoke_side _ = false

abbrev paths_on : (UncoveredSide → Bool) → List Diagnostic → List String
paths_on side ds = map (λ (d : Diagnostic). d.field_path) (keep (λ d. side d.uncovered_side) ds)

-- A spoke without a schema to compile against.
abbrev failed_report : String → Problem → SpokeReport
failed_report version problem = record {
  version = version;
  lossless = verdict false false;
  uncovered = record { uncovered_hub = []; uncovered_spoke = [] };
  rule_results = [];
  errors =
      record {
        severity = Severity.error;
        problem = problem;
        rule_index = none;
        field_path = "";
        uncovered_side = no_side;
      }
      ∷ [];
  warnings = [];
  compiled_plan = none;
}

abbrev plan_of : String → String → Built → Plan
plan_of hub_version spoke_version b = record {
  hub_version = hub_version;
  spoke_version = spoke_version;
  hub_to_spoke_ops = of_op_list b.to_spoke;
  spoke_to_hub_ops = of_op_list b.to_hub;
}

-- The report of a spoke: a plan is attached only if there is no error.
unfoldable pub spoke_report : String → String → Built → List Diagnostic → SpokeReport
unfolding severe mild
spoke_report hub_version spoke_version b more =
    let diags = b.diags ++ more in
    record {
      version = spoke_version;
      lossless = b.lossless;
      uncovered = record {
        uncovered_hub = paths_on is_hub_side diags;
        uncovered_spoke = paths_on is_spoke_side diags;
      };
      rule_results = b.results;
      errors = severe diags;
      warnings = mild diags;
      compiled_plan =
          if is_empty (severe diags) then some (plan_of hub_version spoke_version b) else none;
    }

-- The checks on the fields of the platform, and on required fields in both directions.
unfoldable pub platform_diags :
    PlatformInjectedPaths → VersionSchema → VersionSchema → List RuleResult → List Diagnostic
platform_diags injected hub spoke results = sort_diagnostics (
    check_authored_shadowing injected hub.schema hub.name "hub"
    ++ check_authored_shadowing injected spoke.schema spoke.name "spoke"
    ++ check_rule_targets injected results)

unfoldable pub required_diags :
    VersionSchema → VersionSchema → Rules → List RuleResult → List Diagnostic
required_diags hub spoke rules results = sort_diagnostics (
    analyze_required_fields spoke.schema hub.schema rules results spoke_dest
    ++ analyze_required_fields hub.schema spoke.schema rules results hub_dest)

module _ (rt : Runtime) where
  -- Compile, with the plan whatever the diagnostics
  unfoldable pub compile : RuleSet → Schema → Schema → Plan × List Diagnostic
  compile rs hub spoke =
      let b =
        resolve_and_build_ops rt rs.rules hub spoke (effective_policy rs.unmapped_field_policy) 0 in
      (plan_of rs.hub_version rs.spoke_version b, b.diags)

  module _ (injected : PlatformInjectedPaths) where
    abbrev analyze_version : String → VersionSchema → RuleSet → Option VersionSchema → SpokeReport
    analyze_version hub_version hub rs none =
        failed_report rs.spoke_version (spoke_not_found rs.spoke_version)
    analyze_version hub_version hub rs (some spoke) =
        let b =
          resolve_and_build_ops rt rs.rules hub.schema spoke.schema
            (effective_policy rs.unmapped_field_policy) 0 in
        if spoke.served
        then spoke_report hub_version rs.spoke_version b (
            platform_diags injected hub spoke b.results
            ++ required_diags hub spoke rs.rules b.results)
        else failed_report rs.spoke_version (spoke_not_served rs.spoke_version)

    unfoldable pub analyze_spoke :
        Map VersionSchema → String → VersionSchema → RuleSet → SpokeReport
    unfolding spoke_report
    analyze_spoke versions hub_version hub rs =
        analyze_version hub_version hub rs (lookup rs.spoke_version versions)

    abbrev with_hub :
        Map VersionSchema
        → String
        → List RuleSet
        → Option VersionSchema
        → Result AnalyzeError AnalyzeReport
    with_hub versions hub_version spokes none = err (hub_not_found hub_version)
    with_hub versions hub_version spokes (some hub) =
        if hub.storage
        then ok (record { spoke_reports = map (analyze_spoke versions hub_version hub) spokes })
        else err (hub_not_storage hub_version)

    unfoldable pub analyze :
        List VersionSchema → String → List RuleSet → Result AnalyzeError AnalyzeReport
    unfolding by_name analyze_spoke
    analyze versions hub_version spokes =
        let named = by_name versions [] in
        with_hub named hub_version spokes (lookup hub_version named)
