-- ===== src/WebhookServer/Reconciler/Serving.antt =====
-- internal/webhookserver/reconciler.go: the plans of a router that a reconciliation installs.
use declarative_conversion_o.Prelude.{
  String, ◌≡◌, ◌≢◌, refl, Bool, true, false, not, Option, none, some, List, [], ◌∷◌, inl, inr,
  Bool-cases, All, is_some, is_empty, any, or-false, ◌==◌,
}
use declarative_conversion_o.Prelude.Assoc.{Map, lookup, insert, lookup-insert}
use declarative_conversion_o.Prelude.Result.{ok}
use declarative_conversion_o.Engine.Runtime.{Runtime}
use declarative_conversion_o.Engine.Op.{Plan}
use declarative_conversion_o.Engine.Diagnostics.{SpokeReport, AnalyzeReport, has_errors}
use declarative_conversion_o.Engine.Rule.{RuleSet}
use declarative_conversion_o.Engine.Platform.{PlatformInjectedPaths}
use declarative_conversion_o.Engine.Analyze.{VersionSchema, analyze}
use declarative_conversion_o.Engine.Platform.{PlatformInjectedPaths}
use declarative_conversion_o.Engine.Analyze.Plans.{HasPlanIffClean, analyze-HasPlanIffClean}
use declarative_conversion_o.WebhookServer.Reconciler.{plans_of}

empty-true : (b : Bool) → not b ≡ false → b ≡ true
empty-true true h = refl
empty-true false h = cc h

plans_of-ne_nil :
    (reports : List SpokeReport) (plans : Map (Option Plan)) (version : String)
    → All HasPlanIffClean reports
    → any (λ s. not (is_empty s.errors)) reports ≡ false
    → lookup version plans ≢ some none
    → lookup version (plans_of reports plans) ≢ some none
unfolding plans_of
plans_of-ne_nil [] plans version _ h ne = ne
plans_of-ne_nil (s ∷ reports) plans version (has, rest) h ne =
    let (fine, others) = or-false _ _ h in
    let there : is_some s.compiled_plan ≡ true = rw has (empty-true _ fine) in
    plans_of-ne_nil reports (insert s.version s.compiled_plan plans) version rest others
      (elim (Bool-cases (s.version == version)) [
        | inl e ↦ rw (lookup-insert, e) (λ q. cc (there, q))
        | inr e ↦ rw (lookup-insert, e) ne
      ])

-- The router that a reconciliation makes of an analysis without errors has no nil plan, so that
-- every version that it knows can be converted with a compiled plan.
pub analyze-plans_of :
    (rt : Runtime) (injected : PlatformInjectedPaths) (versions : List VersionSchema)
    (hub_version : String) (spokes : List RuleSet) {rep : AnalyzeReport} (version : String)
    → analyze rt injected versions hub_version spokes ≡ ok rep
    → has_errors rep ≡ false
    → lookup version (plans_of rep.spoke_reports []) ≢ some none
unfolding has_errors lookup
analyze-plans_of rt injected versions hub_version spokes {rep} version h fine =
    plans_of-ne_nil rep.spoke_reports [] version
      (analyze-HasPlanIffClean rt injected versions hub_version spokes h) fine (λ q. cc q)
