-- ===== src/Engine/Diagnostics.antt =====
-- pkg/engine/diagnostics.go: what an analysis finds, and its reports.
use declarative_conversion_o.Prelude.{
  ℕ, String, Bool, true, false, ◌&&◌, Option, none, some, List, any, all, not, is_empty,
}
use declarative_conversion_o.Engine.Op.{Plan}
use declarative_conversion_o.Engine.Rule.{Strategy}
use declarative_conversion_o.Engine.Problem.{Problem, uncovered}

pub data Severity : Type 0 where
  error warning : Severity

-- The tag of a leftover field; `no_side` is the empty string.
pub data UncoveredSide : Type 0 where
  no_side hub_side spoke_side : UncoveredSide

abbrev pub is_severe : Severity → Bool
is_severe error = true
is_severe warning = false

-- Rule index -1 is `none`.
pub record Diagnostic : Type 0 where
  pub severity : Severity
  pub problem : Problem
  pub rule_index : Option ℕ
  pub field_path : String
  pub uncovered_side : UncoveredSide

abbrev pub errorf : ℕ → Problem → Diagnostic
errorf idx problem = record {
  severity = error;
  problem = problem;
  rule_index = some idx;
  field_path = "";
  uncovered_side = no_side;
}

abbrev pub warnf : ℕ → Problem → Diagnostic
warnf idx problem = record {
  severity = warning;
  problem = problem;
  rule_index = some idx;
  field_path = "";
  uncovered_side = no_side;
}

abbrev pub is_hub_side : UncoveredSide → Bool
is_hub_side hub_side = true
is_hub_side _ = false

abbrev pub uncovered_field_diag : Severity → UncoveredSide → String → String → Diagnostic
uncovered_field_diag severity side path construct = record {
  severity = severity;
  problem = uncovered (is_hub_side side) path construct;
  rule_index = none;
  field_path = path;
  uncovered_side = side;
}

pub record LosslessVerdict : Type 0 where
  pub hub_to_spoke : Bool
  pub spoke_to_hub : Bool

abbrev pub verdict : Bool → Bool → LosslessVerdict
verdict h s = record { hub_to_spoke = h; spoke_to_hub = s }

-- (LosslessVerdict).and
abbrev pub and_verdict : LosslessVerdict → LosslessVerdict → LosslessVerdict
and_verdict v o = verdict (v.hub_to_spoke && o.hub_to_spoke) (v.spoke_to_hub && o.spoke_to_hub)

pub record RuleResult : Type 0 where
  pub index : ℕ
  pub strategy : Strategy
  pub hub_paths : List String
  pub spoke_paths : List String
  pub lossless : LosslessVerdict
  pub errors : List Problem
  pub warnings : List Problem

pub record FieldCoverage : Type 0 where
  pub uncovered_hub : List String
  pub uncovered_spoke : List String

pub record SpokeReport : Type 0 where
  pub version : String
  pub lossless : LosslessVerdict
  pub uncovered : FieldCoverage
  pub rule_results : List RuleResult
  pub errors : List Diagnostic
  pub warnings : List Diagnostic
  pub compiled_plan : Option Plan

pub record AnalyzeReport : Type 0 where
  pub spoke_reports : List SpokeReport

unfoldable pub overall_lossless : AnalyzeReport → Bool
overall_lossless r = all (λ s. s.lossless.hub_to_spoke && s.lossless.spoke_to_hub) r.spoke_reports

unfoldable pub has_errors : AnalyzeReport → Bool
has_errors r = any (λ s. not (is_empty s.errors)) r.spoke_reports
