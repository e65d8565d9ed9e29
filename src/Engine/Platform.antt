-- ===== src/Engine/Platform.antt =====
-- pkg/engine/platform.go: fields that the platform writes into the schema over the author's.
use declarative_conversion_o.Prelude.{
  ℕ, String, Bool, true, false, not, ◌&&◌, ◌||◌, Option, none, some, List, [], ◌∷◌, ◌==◌, ltb,
  is_empty, if◌then◌else◌,
}
use declarative_conversion_o.Prelude.Text.{str_ltb}
use declarative_conversion_o.Engine.Failure.{FieldPath}
use declarative_conversion_o.Engine.Path.{path_string, parse_path, has_prefix}
use declarative_conversion_o.Engine.Schema.{Schema, property_of, properties_of}
use declarative_conversion_o.Engine.Problem.{authored_field_shadowed, rule_targets_injected}
use declarative_conversion_o.Engine.Diagnostics.{
  Severity, error, warning, no_side, Diagnostic, RuleResult,
}

pub record PlatformInjectedPaths : Type 0 where
  pub platform : String
  pub paths : List FieldPath
  pub is_uncertain : Bool
  pub uncertain_reason : String

abbrev pub platform_name : PlatformInjectedPaths → String
platform_name p = if p.platform == "" then "the platform" else p.platform

abbrev pub injected_severity : PlatformInjectedPaths → Severity
injected_severity p = if p.is_uncertain then warning else error

abbrev pub uncertainty_note : PlatformInjectedPaths → Option String
uncertainty_note p = if p.is_uncertain then some p.uncertain_reason else none

abbrev declared_below : Option Schema → (Schema → Bool) → Bool
declared_below none rest = false
declared_below (some next) rest = rest next

-- A node is declared at the path.
unfoldable pub schema_declares_path : Schema → FieldPath → Bool
unfolding property_of
schema_declares_path s [] = true
schema_declares_path s (seg ∷ segs) =
    declared_below (property_of seg (properties_of s)) (λ next. schema_declares_path next segs)

-- The first root that the path lies at or below.
unfoldable pub owner : List FieldPath → FieldPath → Option FieldPath
owner [] path = none
owner (root ∷ roots) path =
    let rest = owner roots path in
    if not (is_empty root) && has_prefix path root then some root else rest

module _ (p : PlatformInjectedPaths) where
  abbrev shadowed : String → String → FieldPath → Diagnostic
  shadowed version side path = record {
    severity = injected_severity p;
    problem =
        authored_field_shadowed side version (path_string path) (platform_name p)
          (uncertainty_note p);
    rule_index = none;
    field_path = path_string path;
    uncovered_side = no_side;
  }

  unfoldable pub shadowing_from : Schema → String → String → List FieldPath → List Diagnostic
  unfolding schema_declares_path
  shadowing_from s version side [] = []
  shadowing_from s version side (path ∷ paths) =
      let rest = shadowing_from s version side paths in
      if schema_declares_path s path then shadowed version side path ∷ rest else rest

  unfoldable pub check_authored_shadowing : Schema → String → String → List Diagnostic
  unfolding shadowing_from
  check_authored_shadowing s version side = shadowing_from s version side p.paths

  abbrev targets : RuleResult → String → String → FieldPath → Diagnostic
  targets rr side raw injected = record {
    severity = injected_severity p;
    problem =
        rule_targets_injected rr.index rr.strategy side raw (path_string injected) (platform_name p)
          (uncertainty_note p);
    rule_index = some rr.index;
    field_path = raw;
    uncovered_side = no_side;
  }

  abbrev add_target :
      RuleResult → String → String → Option FieldPath → List Diagnostic → List Diagnostic
  add_target rr side raw none rest = rest
  add_target rr side raw (some injected) rest = targets rr side raw injected ∷ rest

  -- The paths of one side of a rule, before the diagnostics of what comes after them.
  unfoldable pub check_paths : RuleResult → String → List String → List Diagnostic → List Diagnostic
  unfolding owner
  check_paths rr side [] rest = rest
  check_paths rr side (raw ∷ raws) rest =
      add_target rr side raw (owner p.paths (parse_path raw)) (check_paths rr side raws rest)

  unfoldable pub check_rule_targets : List RuleResult → List Diagnostic
  unfolding check_paths
  check_rule_targets [] = []
  check_rule_targets (rr ∷ results) =
      check_paths rr "hub" rr.hub_paths
        (check_paths rr "spoke" rr.spoke_paths (check_rule_targets results))

-- A rule's index is a number, and the index of no rule is -1.
abbrev index_ltb : Option ℕ → Option ℕ → Bool
index_ltb none none = false
index_ltb none (some j) = true
index_ltb (some i) none = false
index_ltb (some i) (some j) = ltb i j

abbrev pub comes_before : Diagnostic → Diagnostic → Bool
comes_before a b =
    index_ltb a.rule_index b.rule_index
    || (not (index_ltb b.rule_index a.rule_index) && str_ltb a.field_path b.field_path)

unfoldable pub insert_diagnostic : Diagnostic → List Diagnostic → List Diagnostic
insert_diagnostic d [] = d ∷ []
insert_diagnostic d (e ∷ es) =
    let rest = insert_diagnostic d es in if comes_before e d then e ∷ rest else d ∷ e ∷ es

-- A stable sort.
unfoldable pub sort_diagnostics : List Diagnostic → List Diagnostic
unfolding insert_diagnostic
sort_diagnostics [] = []
sort_diagnostics (d ∷ ds) = insert_diagnostic d (sort_diagnostics ds)
