-- ===== src/Engine/Analyze/Plans.antt =====
-- pkg/engine/analyze.go: which plans an analysis hands on.
use declarative_conversion_o.Prelude.{
  String, ◌≡◌, refl, Bool, true, false, Option, none, some, List, [], ◌∷◌, map, inl, inr,
  Bool-cases, All, is_some, is_empty, if◌then◌else◌,
}
use declarative_conversion_o.Prelude.Assoc.{Map, lookup}
use declarative_conversion_o.Prelude.Result.{Result, ok, err}
use declarative_conversion_o.Engine.Runtime.{Runtime}
use declarative_conversion_o.Engine.Diagnostics.{Diagnostic, SpokeReport, AnalyzeReport}
use declarative_conversion_o.Engine.Rule.{RuleSet}
use declarative_conversion_o.Engine.Compile.Leftovers.{Built}
use declarative_conversion_o.Engine.Platform.{PlatformInjectedPaths}
use declarative_conversion_o.Engine.Analyze.{
  VersionSchema, by_name, spoke_report, analyze_version, analyze_spoke, with_hub, analyze,
}

-- A report has a plan exactly if it has no errors.
abbrev pub HasPlanIffClean : SpokeReport → Type 0
HasPlanIffClean s = is_some s.compiled_plan ≡ is_empty s.errors

plan_iff_clean :
    (hub_version spoke_version : String) (b : Built) (more : List Diagnostic)
    → HasPlanIffClean (spoke_report hub_version spoke_version b more)
unfolding spoke_report
plan_iff_clean hub_version spoke_version b more =
    elim (Bool-cases (is_empty (spoke_report hub_version spoke_version b more).errors)) [
      | inl e ↦ rw e refl
      | inr e ↦ rw e refl
    ]

pub if_ok :
    {E A : Type 0} (b : Bool) (a : A) (e : E) {c : A}
    → ◌≡◌ {A = Result E A} (if b then ok a else err e) (ok c)
    → a ≡ c
if_ok true a e h = cc h
if_ok false a e h = cc h

module _ (rt : Runtime) (injected : PlatformInjectedPaths) where
  version-HasPlanIffClean :
      (hub_version : String) (hub : VersionSchema) (rs : RuleSet) (o : Option VersionSchema)
      → HasPlanIffClean (analyze_version rt injected hub_version hub rs o)
  version-HasPlanIffClean hub_version hub rs none = refl
  version-HasPlanIffClean hub_version hub rs (some spoke) = elim (Bool-cases spoke.served) [
    | inl e ↦ rw e (plan_iff_clean hub_version rs.spoke_version _ _)
    | inr e ↦ rw e refl
  ]

  reports-HasPlanIffClean :
      (versions : Map VersionSchema) (hub_version : String) (hub : VersionSchema)
      (spokes : List RuleSet)
      → All HasPlanIffClean (map (analyze_spoke rt injected versions hub_version hub) spokes)
  unfolding analyze_spoke
  reports-HasPlanIffClean versions hub_version hub [] = tt
  reports-HasPlanIffClean versions hub_version hub (rs ∷ spokes) = (
    version-HasPlanIffClean hub_version hub rs (lookup rs.spoke_version versions),
    reports-HasPlanIffClean versions hub_version hub spokes,
  )

  hub-HasPlanIffClean :
      (versions : Map VersionSchema) (hub_version : String) (spokes : List RuleSet)
      (o : Option VersionSchema) {rep : AnalyzeReport}
      → with_hub rt injected versions hub_version spokes o ≡ ok rep
      → All HasPlanIffClean rep.spoke_reports
  hub-HasPlanIffClean versions hub_version spokes none h = cc h
  hub-HasPlanIffClean versions hub_version spokes (some hub) h =
      rw (← if_ok hub.storage _ _ h) (reports-HasPlanIffClean versions hub_version hub spokes)

  -- In the report of an analysis that returns one, a spoke has a plan exactly if it has no errors.
  pub analyze-HasPlanIffClean :
      (versions : List VersionSchema) (hub_version : String) (spokes : List RuleSet)
      {rep : AnalyzeReport}
      → analyze rt injected versions hub_version spokes ≡ ok rep
      → All HasPlanIffClean rep.spoke_reports
  unfolding analyze
  analyze-HasPlanIffClean versions hub_version spokes h =
      hub-HasPlanIffClean (by_name versions []) hub_version spokes _ h
