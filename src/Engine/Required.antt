-- ===== src/Engine/Required.antt =====
-- pkg/engine/required.go: whether the rules can always produce every field that a schema requires.
pub mod Leaves
pub mod Carried
pub mod Supplied
pub mod Writers
pub mod Guarantees
use declarative_conversion_o.Prelude.{
  ℕ, zero, suc, String, Bool, true, false, not, ◌&&◌, ◌||◌, Option, none, some, List, [], ◌∷◌, ◌++◌,
  ◌==◌, nat_eq, ltb, any, is_empty, is_some, if◌then◌else◌,
}
use declarative_conversion_o.Prelude.Text.{append, has_prefix, str_ltb}
use declarative_conversion_o.Engine.Failure.{FieldPath}
use declarative_conversion_o.Engine.Path.{path_string}
use declarative_conversion_o.Engine.Schema.{
  Facts, Schema, schema, LeafField, flatten_schema, property_of, properties_of,
}
use declarative_conversion_o.Engine.Rule.{Strategy, Rule, rule, RuleWhen, Rules, no_rules, rule_and}
use declarative_conversion_o.Engine.Problem.{
  Problem, Reason, no_reason, no_guarantee, carries_when, by_rule, from_optional, required_in_whole,
  required_unwritten, required_unprovable, required_conditional, required_unsatisfiable,
}
use declarative_conversion_o.Engine.Diagnostics.{
  Severity, error, warning, no_side, Diagnostic, RuleResult,
}
use declarative_conversion_o.Engine.Platform.{sort_diagnostics}
use declarative_conversion_o.Engine.Required.Leaves.{
  contains, RequiredLeaf, unconditionally_required_leaves,
}

-- requiredSatisfaction, from the strongest guarantee to none
pub data Satisfaction : Type 0 where
  always unprovably conditionally never : Satisfaction

abbrev pub rank : Satisfaction → ℕ
rank always = 0
rank unprovably = 1
rank conditionally = 2
rank never = 3

pub data DestSide : Type 0 where
  hub_dest spoke_dest : DestSide

abbrev pub side_name : DestSide → String
side_name hub_dest = "hub"
side_name spoke_dest = "spoke"

abbrev pub dest_paths : DestSide → RuleResult → List String
dest_paths hub_dest rr = rr.hub_paths
dest_paths spoke_dest rr = rr.spoke_paths

abbrev pub source_paths : DestSide → RuleResult → List String
source_paths hub_dest rr = rr.spoke_paths
source_paths spoke_dest rr = rr.hub_paths

abbrev pub is_unprovable : Strategy → Bool
is_unprovable Strategy.cel = true
is_unprovable Strategy.json_patch = true
is_unprovable Strategy.scalar_to_fields = true
is_unprovable _ = false

abbrev pub is_produced : Strategy → Bool
is_produced Strategy.constant = true
is_produced Strategy.default_value = true
is_produced _ = false

-- The condition of the first rule with the index, and none for the zero Rule if there is no such
-- rule.
unfoldable pub when_at : Rules → ℕ → Option RuleWhen
when_at no_rules index = none
when_at (rule_and (rule strategy args ack source_index condition) rules) index =
    let rest = when_at rules index in if nat_eq source_index index then condition else rest

-- srcRequired, as the paths that are keys of it
unfoldable pub source_required : List LeafField → List String
source_required [] = []
source_required (l ∷ ls) =
    let rest = source_required ls in if l.required then path_string l.path ∷ rest else rest

-- The first source path that is not required decides.
unfoldable pub verdict_for_sources : RuleResult → List String → List String → Satisfaction × Reason
verdict_for_sources rr required [] = (always, no_reason)
verdict_for_sources rr required (s ∷ ss) =
    let rest = verdict_for_sources rr required ss in
    if contains required s then rest else (conditionally, from_optional rr.index rr.strategy s)

unfoldable pub verdict_for_rule :
    Option RuleWhen → RuleResult → List String → DestSide → Satisfaction × Reason
unfolding verdict_for_sources
verdict_for_rule condition rr required side =
    if is_some condition
    then (conditionally, carries_when rr.index rr.strategy)
    else if is_unprovable rr.strategy
    then (unprovably, by_rule rr.index rr.strategy)
    else if is_produced rr.strategy
    then (always, no_reason)
    else verdict_for_sources rr required (source_paths side rr)

-- The verdict, its reason, and the index of the rule that gives it, none for -1.
abbrev pub Best : Type 0
Best = Satisfaction × Reason × Option ℕ

abbrev pub better : RuleResult → Satisfaction × Reason → Best → Best
better rr (verdict, why) (best, best_why, best_index) =
    if ltb (rank verdict) (rank best)
    then (verdict, why, some rr.index)
    else (best, best_why, best_index)

unfoldable pub best_from : Rules → List String → DestSide → List RuleResult → Best → Best
unfolding verdict_for_rule when_at
best_from rules required side [] best = best
best_from rules required side (rr ∷ rrs) best =
    best_from rules required side rrs
      (better rr (verdict_for_rule (when_at rules rr.index) rr required side) best)

abbrev pub no_verdict : Best
no_verdict = (never, no_guarantee, none)

unfoldable pub best_verdict : Rules → List String → DestSide → List RuleResult → Best
unfolding best_from
best_verdict rules required side rrs = best_from rules required side rrs no_verdict

-- The results of the rules that write a path, once for each time that they name it.
abbrev pub once_each : RuleResult → String → List String → List RuleResult → List RuleResult
once_each rr path [] rest = rest
once_each rr path (p ∷ ps) rest =
    let more = once_each rr path ps rest in if p == path then rr ∷ more else more

unfoldable pub writers : DestSide → String → List RuleResult → List RuleResult
writers side path [] = []
writers side path (rr ∷ rrs) = once_each rr path (dest_paths side rr) (writers side path rrs)

unfoldable pub all_dest_paths : DestSide → List RuleResult → List String
all_dest_paths side [] = []
all_dest_paths side (rr ∷ rrs) = dest_paths side rr ++ all_dest_paths side rrs

abbrev finding : Severity → Option ℕ → String → Problem → Diagnostic
finding severity index path problem = record {
  severity = severity;
  problem = problem;
  rule_index = index;
  field_path = path;
  uncovered_side = no_side;
}

abbrev judge : DestSide → String → Best → List Diagnostic
judge side path (always, why, index) = []
judge side path (unprovably, why, index) =
    finding warning index path (required_unprovable (side_name side) path why) ∷ []
judge side path (conditionally, why, index) =
    finding error index path (required_conditional (side_name side) path why) ∷ []
judge side path (never, why, index) =
    finding error index path (required_unsatisfiable (side_name side) path why) ∷ []

abbrev has_default : Schema → Bool
has_default (schema f e ps) = f.has_default

-- One leaf, given the rules that write it.
abbrev check_written :
    Rules → List String → DestSide → RequiredLeaf → String → List RuleResult → List Diagnostic
check_written rules required side l path [] =
    if contains required path
    then []
    else if l.ancestor_written_wholesale
    then finding warning none path (required_in_whole (side_name side) path) ∷ []
    else finding error none path (required_unwritten (side_name side) path) ∷ []
check_written rules required side l path (rr ∷ rrs) =
    judge side path (best_verdict rules required side (rr ∷ rrs))

unfoldable pub check_leaf :
    Rules → List RuleResult → List String → DestSide → RequiredLeaf → List Diagnostic
unfolding best_verdict writers
check_leaf rules results required side l =
    let path = path_string l.leaf.path in
    if has_default l.leaf.node
    then []
    else check_written rules required side l path (writers side path results)

unfoldable pub check_leaves :
    Rules → List RuleResult → List String → DestSide → List RequiredLeaf → List Diagnostic
unfolding check_leaf
check_leaves rules results required side [] = []
check_leaves rules results required side (l ∷ ls) =
    check_leaf rules results required side l ++ check_leaves rules results required side ls

unfoldable pub analyze_required_fields :
    Schema → Schema → Rules → List RuleResult → DestSide → List Diagnostic
unfolding check_leaves unconditionally_required_leaves sort_diagnostics
analyze_required_fields dest source rules results side = sort_diagnostics (
    check_leaves rules results (source_required (flatten_schema (some source))) side
      (unconditionally_required_leaves dest (all_dest_paths side results)))
