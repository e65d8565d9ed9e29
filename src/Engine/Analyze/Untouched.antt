-- ===== src/Engine/Analyze/Untouched.antt =====
-- pkg/engine/analyze.go and platform.go: rules and the fields that the platform owns.
use declarative_conversion_o.Prelude.{
  String, ◌≡◌, ◌≢◌, ◌⊎◌, true, false, List, [], ◌++◌, All, is_some,
}
use declarative_conversion_o.Engine.Failure.{FieldPath}
use declarative_conversion_o.Engine.Path.{parse_path}
use declarative_conversion_o.Engine.Runtime.{Runtime}
use declarative_conversion_o.Engine.Diagnostics.{RuleResult, SpokeReport}
use declarative_conversion_o.Engine.Platform.{PlatformInjectedPaths}

-- The path is not the root, nor one below it; an empty root owns nothing.
abbrev pub Outside : FieldPath → FieldPath → Type 0
Outside root path = (root ≡ []) ⊎ ((rest : FieldPath) → path ≢ root ++ rest)

-- None of the paths is at or below a path that the platform injects.
abbrev pub AllFree : PlatformInjectedPaths → List String → Type 0
AllFree p = All (λ raw. All (λ root. Outside root (parse_path raw)) p.paths)

-- No rule's path, on either side, is at or below a path that the platform injects.
abbrev pub Untouched : PlatformInjectedPaths → List RuleResult → Type 0
Untouched p = All (λ (rr : RuleResult). AllFree p rr.hub_paths × AllFree p rr.spoke_paths)

module _ (p : PlatformInjectedPaths) (certain : p.is_uncertain ≡ false) where
  -- A report that has a plan is about rules that leave the platform's fields alone.
  abbrev PlannedIsUntouched : SpokeReport → Type 0
  PlannedIsUntouched s = is_some s.compiled_plan ≡ true → Untouched p s.rule_results
