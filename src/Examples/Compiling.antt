-- ===== src/Examples/Compiling.antt =====
-- Rules that compile, and an analysis of them.
use mathlib.Core.List.{Memᴰ}
use declarative_conversion_o.Prelude.{
  String, ◌≡◌, ◌≢◌, refl, true, false, none, some, [], ◌∷◌, List, All,
}
use declarative_conversion_o.Prelude.Assoc.{lookup, insert}
use declarative_conversion_o.Prelude.Result.{Result, ok}
use declarative_conversion_o.Prelude.Text.{join}
use declarative_conversion_o.Engine.Path.{path_string, has_prefix, parse_path, last_segment}
use declarative_conversion_o.Engine.Schema.{
  Facts, Schema, schema, LeafField, no_element, no_properties, property, flatten_schema,
  flatten_into, lookup_path, classify, property_of,
}
use declarative_conversion_o.Engine.Kind.{FieldKind}
use declarative_conversion_o.Engine.Rule.{
  Strategy, UnmappedFieldPolicy, RuleParams, rule, Rules, no_rules, rule_and, RuleSet,
}
use declarative_conversion_o.Engine.Diagnostics.{
  RuleResult, verdict, SpokeReport, AnalyzeReport, has_errors,
}
use declarative_conversion_o.Engine.Compile.{
  resolve_and_build_ops, resolve_rules, resolve_rule, resolve, record_rule, effective_policy,
}
use declarative_conversion_o.Engine.Compile.Claims.{claim}
use declarative_conversion_o.Engine.Compile.Shapes.{resolve_field_rename}
use declarative_conversion_o.Engine.Compile.Results.{check_acknowledged, apply_when}
use declarative_conversion_o.Engine.Compile.Leftovers.{finish}
use declarative_conversion_o.Engine.Compile.Branches.{nothing_built}
use declarative_conversion_o.Engine.Compile.Identical.{Accounted}
use declarative_conversion_o.Engine.Compile.Covered.{clean, resolve_and_build_ops-Claimed}
use declarative_conversion_o.Engine.Compile.Lossless.{AllLossless, resolve_and_build_ops-IsLossless}
use declarative_conversion_o.Engine.Analyze.{
  VersionSchema, by_name, analyze_spoke, analyze, platform_diags, required_diags,
}
use declarative_conversion_o.Engine.Platform.{
  PlatformInjectedPaths, sort_diagnostics, check_authored_shadowing, check_rule_targets,
}
use declarative_conversion_o.Engine.Required.{analyze_required_fields, source_required, spoke_dest}
use declarative_conversion_o.Engine.Required.Carried.{IsCarried, at_end, inside, required}
use declarative_conversion_o.Engine.Required.Supplied.{IsGuaranteed}
use declarative_conversion_o.Engine.Required.Guarantees.{analyze_required_fields-IsGuaranteed}
use declarative_conversion_o.Engine.Analyze.Untouched.{Untouched}
use declarative_conversion_o.Engine.Analyze.Plans.{HasPlanIffClean, analyze-HasPlanIffClean}
use declarative_conversion_o.WebhookServer.Reconciler.{plans_of}
use declarative_conversion_o.WebhookServer.Reconciler.Serving.{analyze-plans_of}
use declarative_conversion_o.Examples.{rt}

abbrev pub facts : String → Facts
facts kind = record {
  kind = kind;
  required = [];
  has_additional_properties = false;
  preserve_unknown_fields = none;
  ref = none;
  has_all_of = false;
  has_one_of = false;
  has_any_of = false;
  max_items = none;
  has_default = false;
}

abbrev pub number : Schema
number = schema (facts "integer") no_element no_properties

-- The hub calls it size and the spoke amount; both have a name.
abbrev hub : Schema
hub =
    schema (facts "object") no_element
      (property "size" number (property "name" number no_properties))

abbrev spoke : Schema
spoke =
    schema (facts "object") no_element
      (property "amount" number (property "name" number no_properties))

abbrev rules : Rules
rules =
    rule_and
      (rule Strategy.field_rename (RuleParams.field_rename ("size" ∷ []) ("amount" ∷ [])) false 0
        none)
      no_rules

compiles : clean (resolve_and_build_ops rt rules hub spoke UnmappedFieldPolicy.error 0).diags ≡ true
unfolding resolve_and_build_ops resolve_rules resolve_rule resolve record_rule resolve_field_rename
    check_acknowledged apply_when finish lookup_path classify claim path_string flatten_schema
    lookup join insert flatten_into
compiles = refl

resolve_and_build_ops-Claimed_example :
    let hubs = flatten_schema (some hub) in
    let spokes = flatten_schema (some spoke) in
    let b = resolve_rules rt rules 0 hub spoke UnmappedFieldPolicy.error 0 nothing_built in
    All (λ l. Accounted hubs spokes b b.claimed_hub (path_string l.path)) hubs
    × All (λ l. Accounted hubs spokes b b.claimed_spoke (path_string l.path)) spokes
resolve_and_build_ops-Claimed_example =
    resolve_and_build_ops-Claimed UnmappedFieldPolicy.error refl rt rules hub spoke 0 compiles

resolve_and_build_ops-IsLossless_example :
    AllLossless (resolve_and_build_ops rt rules hub spoke UnmappedFieldPolicy.error 0)
resolve_and_build_ops-IsLossless_example =
    resolve_and_build_ops-IsLossless rt rules hub spoke UnmappedFieldPolicy.error 0 (refl, tt)
      compiles

abbrev versions : List VersionSchema
versions =
    record { name = "v1"; served = true; storage = true; schema = hub }
    ∷ record { name = "v2"; served = true; storage = false; schema = spoke }
    ∷ []

abbrev rule_set : RuleSet
rule_set = record {
  hub_version = "v1";
  spoke_version = "v2";
  rules = rules;
  unmapped_field_policy = UnmappedFieldPolicy.unset;
}

abbrev pub injected : PlatformInjectedPaths
injected = record {
  platform = "Crossplane";
  paths = ("spec" ∷ "claimRef" ∷ []) ∷ [];
  is_uncertain = false;
  uncertain_reason = "";
}

-- Each case of an outcome that is known not to be an error.
report_of : {E A : Type 0} → Result E A → A → A
report_of (ok a) b = a
report_of _ b = b

abbrev analysed : AnalyzeReport
analysed =
    report_of (analyze rt injected versions "v1" (rule_set ∷ [])) (record { spoke_reports = [] })

analyses : analyze rt injected versions "v1" (rule_set ∷ []) ≡ ok analysed
unfolding analyze lookup insert report_of
analyses = refl

analyze-HasPlanIffClean_example : All HasPlanIffClean analysed.spoke_reports
analyze-HasPlanIffClean_example =
    analyze-HasPlanIffClean rt injected versions "v1" (rule_set ∷ []) analyses

no_errors : has_errors analysed ≡ false
unfolding has_errors analyze lookup report_of effective_policy resolve_and_build_ops resolve_rules
    resolve_rule resolve record_rule resolve_field_rename check_acknowledged apply_when finish
    lookup_path classify claim path_string flatten_schema join insert flatten_into platform_diags
    required_diags sort_diagnostics check_authored_shadowing check_rule_targets has_prefix
    parse_path analyze_required_fields
no_errors = refl

analyze-plans_of_example : lookup "v2" (plans_of analysed.spoke_reports []) ≢ some none
analyze-plans_of_example =
    analyze-plans_of rt injected versions "v1" (rule_set ∷ []) "v2" analyses no_errors

abbrev hub_version : VersionSchema
hub_version = record { name = "v1"; served = true; storage = true; schema = hub }

abbrev spoke_analysed : SpokeReport
spoke_analysed = analyze_spoke rt injected (by_name versions []) "v1" hub_version rule_set

-- Both versions require the field that the rule renames, in a spec that they require too.
abbrev spec_of : String → Schema
spec_of name =
    schema (record (facts "object") { required = name ∷ [] }) no_element
      (property name number no_properties)

abbrev requiring : String → Schema
requiring name =
    schema (record (facts "object") { required = "spec" ∷ [] }) no_element
      (property "spec" (spec_of name) no_properties)

abbrev renaming : Rules
renaming =
    rule_and
      (rule Strategy.field_rename
        (RuleParams.field_rename ("spec" ∷ "size" ∷ []) ("spec" ∷ "amount" ∷ [])) false 0 none)
      no_rules

abbrev renamed_result : RuleResult
renamed_result = record {
  index = 0;
  strategy = Strategy.field_rename;
  hub_paths = "spec.size" ∷ [];
  spoke_paths = "spec.amount" ∷ [];
  lossless = verdict true true;
  errors = [];
  warnings = [];
}

nothing_found :
    analyze_required_fields
      (requiring "amount")
      (requiring "size")
      renaming
      (renamed_result ∷ [])
      spoke_dest
    ≡ []
unfolding analyze_required_fields flatten_schema flatten_into classify path_string join last_segment
    source_required
nothing_found = refl

abbrev amount_leaf : LeafField
amount_leaf = record {
  path = "spec" ∷ "amount" ∷ [];
  node = number;
  kind = FieldKind.integer;
  is_opaque = false;
  construct = "";
  required = true;
}

amount_declared : Memᴰ amount_leaf (flatten_schema (some (requiring "amount")))
unfolding flatten_schema flatten_into classify last_segment
amount_declared = Memᴰ.head refl

carried :
    IsCarried spoke_dest (renamed_result ∷ []) [] (requiring "amount") ("spec" ∷ "amount" ∷ [])
unfolding property_of
carried = inside refl (required (Memᴰ.head refl)) at_end

analyze_required_fields-IsGuaranteed_example :
    IsGuaranteed renaming (requiring "size") (renamed_result ∷ []) spoke_dest amount_leaf
analyze_required_fields-IsGuaranteed_example =
    analyze_required_fields-IsGuaranteed (requiring "amount") (requiring "size") renaming
      (renamed_result ∷ []) spoke_dest amount_leaf nothing_found amount_declared refl carried
