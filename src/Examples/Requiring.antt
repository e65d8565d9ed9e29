-- ===== src/Examples/Requiring.antt =====
-- A required field of the hub that only an optional field of the spoke gives, and a default for a
-- field of the spoke that has its name.
use declarative_conversion_o.Prelude.{◌≡◌, refl, true, false, none, [], ◌∷◌}
use declarative_conversion_o.Prelude.Assoc.{lookup, insert}
use declarative_conversion_o.Prelude.Text.{join}
use declarative_conversion_o.Engine.Json.{str}
use declarative_conversion_o.Engine.Path.{path_string, has_prefix, parse_path, last_segment}
use declarative_conversion_o.Engine.Schema.{
  schema, no_element, no_properties, property, flatten_schema, flatten_into, lookup_path, classify,
}
use declarative_conversion_o.Engine.Rule.{
  Strategy, UnmappedFieldPolicy, RuleParams, Side, rule, Rules, no_rules, rule_and,
}
use declarative_conversion_o.Engine.Compile.{
  resolve_and_build_ops, resolve_rules, resolve_rule, resolve, record_rule, effective_policy,
}
use declarative_conversion_o.Engine.Compile.Claims.{claim}
use declarative_conversion_o.Engine.Compile.Shapes.{resolve_field_rename}
use declarative_conversion_o.Engine.Compile.Values.{resolve_default_value}
use declarative_conversion_o.Engine.Compile.Results.{check_acknowledged, apply_when}
use declarative_conversion_o.Engine.Compile.Leftovers.{finish}
use declarative_conversion_o.Engine.Analyze.{
  VersionSchema, by_name, analyze_spoke, platform_diags, required_diags,
}
use declarative_conversion_o.Engine.Platform.{
  sort_diagnostics, check_authored_shadowing, check_rule_targets,
}
use declarative_conversion_o.Engine.Required.{analyze_required_fields, source_required}
use declarative_conversion_o.Examples.{rt}
use declarative_conversion_o.Examples.Compiling.{facts, number, injected}

abbrev hub : VersionSchema
hub = record {
  name = "v1";
  served = true;
  storage = true;
  schema =
      schema (record (facts "object") { required = "size" ∷ [] }) no_element
        (property "size" number no_properties);
}

abbrev spoke : VersionSchema
spoke = record {
  name = "v2";
  served = true;
  storage = false;
  schema =
      schema (facts "object") no_element
        (property "amount" number (property "size" number no_properties));
}

abbrev renaming : Rules
renaming =
    rule_and
      (rule Strategy.field_rename (RuleParams.field_rename ("size" ∷ []) ("amount" ∷ [])) true 0
        none)
      (rule_and
        (rule Strategy.default_value (RuleParams.default_value ("size" ∷ []) Side.spoke (str "1"))
          true 1 none)
        no_rules)

-- Nothing is reported, though an object without an amount becomes one without a size.
unreported :
    (analyze_spoke rt injected (by_name (spoke ∷ []) []) "v1" hub (record {
      hub_version = "v1";
      spoke_version = "v2";
      rules = renaming;
      unmapped_field_policy = UnmappedFieldPolicy.unset;
    })).errors
    ≡ []
unfolding analyze_spoke by_name lookup insert effective_policy resolve_and_build_ops resolve_rules
    resolve_rule resolve record_rule resolve_field_rename resolve_default_value check_acknowledged
    apply_when finish lookup_path classify claim path_string flatten_schema join flatten_into
    platform_diags required_diags sort_diagnostics check_authored_shadowing check_rule_targets
    has_prefix parse_path analyze_required_fields last_segment source_required
unreported = refl
