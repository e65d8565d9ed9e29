-- ===== src/Engine/Compile/Results.antt =====
-- pkg/engine/compile.go: what the report of a rule says of its paths, and the guard of a rule.
use declarative_conversion_o.Prelude.{
  ℕ, String, Bool, not, ◌&&◌, Option, none, some, List, [], ◌∷◌, ◌++◌, map, nat_eq, if◌then◌else◌,
  is_empty, keep,
}
use declarative_conversion_o.Prelude.Assoc.{Map}
use declarative_conversion_o.Prelude.Text.{sort_strings}
use declarative_conversion_o.Prelude.Result.{Result, ok, err}
use declarative_conversion_o.Engine.Failure.{FieldPath}
use declarative_conversion_o.Engine.Path.{path_string}
use declarative_conversion_o.Engine.Op.{Op}
use declarative_conversion_o.Engine.Schema.{Schema, LookupError, lookup_path}
use declarative_conversion_o.Engine.Problem.{
  lossy_to_spoke, lossy_to_hub, no_when_path, bad_when_path, partial_coverage,
}
use declarative_conversion_o.Engine.Diagnostics.{Diagnostic, is_severe, errorf, RuleResult}
use declarative_conversion_o.Engine.Rule.{Strategy, RuleParams, RuleWhen}
use declarative_conversion_o.Engine.Compile.Claims.{
  ◌|>◌, Resolved, resolved, add, add_error_if, add_warning,
}

unfoldable sorted_path_strings : Map FieldPath → List String
sorted_path_strings m = sort_strings (map (λ (e : String × FieldPath). path_string e.1) m)

abbrev one : FieldPath → List String
one path = path_string path ∷ []

-- The hub paths and the spoke paths of a rule.
unfoldable pub rule_paths : RuleParams → List String × List String
unfolding sorted_path_strings
rule_paths RuleParams.no_params = ([], [])
rule_paths (RuleParams.field_rename h s) = (one h, one s)
rule_paths (RuleParams.scalar_to_object h s key defaults) = (one h, one s)
rule_paths (RuleParams.object_to_scalar h s key defaults) = (one h, one s)
rule_paths (RuleParams.singleton_array_to_object h s) = (one h, one s)
rule_paths (RuleParams.object_to_singleton_array h s) = (one h, one s)
rule_paths (RuleParams.fields_to_map hs s names policy) = (map path_string hs, one s)
rule_paths (RuleParams.map_to_fields h ss names policy) = (one h, map path_string ss)
rule_paths (RuleParams.to_metadata h key form restore) = (one h, [])
rule_paths (RuleParams.from_metadata s key form stash) = ([], one s)
rule_paths (RuleParams.enum_remap p mapping on_hub on_spoke) = (one p, one p)
rule_paths (RuleParams.default_value p side value) = (one p, one p)
rule_paths (RuleParams.constant p side value) = (one p, one p)
rule_paths (RuleParams.delete p side) = (one p, one p)
rule_paths (RuleParams.json_patch to_spoke to_hub lossless) = ([], [])
rule_paths (RuleParams.for_each h s rules) = (one h, one s)
rule_paths (RuleParams.type_coerce p policy) = (one p, one p)
rule_paths (RuleParams.scalar_to_fields h pattern fields template lossless) =
    (one h, sorted_path_strings fields)
rule_paths (RuleParams.fields_to_scalar fields pattern s template lossless) =
    (sorted_path_strings fields, one s)
rule_paths (RuleParams.array_to_map_by_key h s key) = (one h, one s)
rule_paths (RuleParams.map_to_array_by_key h s key) = (one h, one s)
rule_paths (RuleParams.numeric_scale h s factor) = (one h, one s)
rule_paths (RuleParams.list_join h s separator) = (one h, one s)
rule_paths (RuleParams.list_split h s separator) = (one h, one s)
rule_paths (RuleParams.quantity h s) = (one h, one s)
rule_paths (RuleParams.duration h s) = (one h, one s)
rule_paths (RuleParams.map_key_rename h s renames) = (one h, one s)
rule_paths (RuleParams.cel hs ss to_spoke to_hub) = (map path_string hs, map path_string ss)
rule_paths (RuleParams.branch_map h s discriminator branches) = (one h, one s)

-- The errors of a lossy direction that nobody has acknowledged.
unfoldable pub check_acknowledged : ℕ → Bool → Resolved → Resolved
check_acknowledged idx acknowledged r = record r {
  log =
      r.log
      |> add_error_if (not r.lossless.hub_to_spoke && not acknowledged) idx lossy_to_spoke
      |> add_error_if (not r.lossless.spoke_to_hub && not acknowledged) idx lossy_to_hub;
}

abbrev guarded : RuleWhen → Option Op → Option Op
guarded w none = none
guarded w (some op) = some (Op.when w.path w.equals op)

abbrev pub guard_failures : ℕ → String → Result LookupError Schema → List Diagnostic
guard_failures idx side (ok s) = []
guard_failures idx side (err e) = errorf idx (bad_when_path side e) ∷ []

abbrev pub guard_with : ℕ → RuleWhen → List Diagnostic → Resolved → Resolved
guard_with idx w [] r =
    resolved (guarded w r.to_spoke) (guarded w r.to_hub) r.lossless
      (add_warning idx (partial_coverage w.path) r.log)
guard_with idx w (d ∷ ds) r = record r { log = add (d ∷ ds) r.log }

-- A rule with a `when` runs only where the guard holds.
unfoldable pub apply_when : ℕ → Option RuleWhen → Schema → Schema → Resolved → Resolved
apply_when idx none hub spoke r = r
apply_when idx (some w) hub spoke r =
    if is_empty w.path
    then record r { log = add (errorf idx no_when_path ∷ []) r.log }
    else guard_with idx w
        (guard_failures idx "hub" (lookup_path hub w.path)
          ++ guard_failures idx "spoke" (lookup_path spoke w.path))
        r

unfoldable pub severe : List Diagnostic → List Diagnostic
severe ds = keep (λ d. is_severe d.severity) ds

unfoldable pub mild : List Diagnostic → List Diagnostic
mild ds = keep (λ d. not (is_severe d.severity)) ds

-- The index that a report shows.
abbrev shown_index : ℕ → ℕ → ℕ
shown_index source_index idx = if nat_eq source_index 0 then idx else source_index

unfoldable pub result_of : ℕ → ℕ → Strategy → RuleParams → Resolved → RuleResult
unfolding rule_paths severe mild
result_of idx source_index strategy params r = record {
  index = shown_index source_index idx;
  strategy = strategy;
  hub_paths = (rule_paths params).0;
  spoke_paths = (rule_paths params).1;
  lossless = r.lossless;
  errors = map (λ (d : Diagnostic). d.problem) (severe r.log.diags);
  warnings = map (λ (d : Diagnostic). d.problem) (mild r.log.diags);
}
