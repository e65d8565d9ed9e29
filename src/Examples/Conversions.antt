-- ===== src/Examples/Conversions.antt =====
-- Plans, routers and schemas at concrete inputs.
use declarative_conversion_o.Prelude.{
  String, ◌≡◌, ◌↔◌, refl, false, none, some, [], ◌∷◌, ◌==◌, All, if◌then◌else◌,
}
use declarative_conversion_o.Prelude.Result.{ok}
use declarative_conversion_o.Prelude.Assoc.{lookup}
use declarative_conversion_o.Engine.Json.{Json, str, Object, object}
use declarative_conversion_o.Engine.Op
use declarative_conversion_o.Engine.Op.{Plan, Direction}
use declarative_conversion_o.Engine.Convert.{Router, baseline, router_convert}
use declarative_conversion_o.Engine.Convert.Routing.{Route, router_convert_iff}
use declarative_conversion_o.Engine.Convert.Metadata.{KeptOrEmpty, baseline_lem}
use declarative_conversion_o.Engine.Schema.{
  Facts, Schema, schema, no_element, no_properties, property, unresolved_construct, flatten_schema,
  build_known_tree,
}
use declarative_conversion_o.Engine.Schema.Declared.{Declared, Normalized, flatten_schema-Declared}
use declarative_conversion_o.Examples.{rt}

abbrev root : Object
root =
    ("kind", str "Bucket")
    ∷ ("metadata", object (("labels", object (("k", str "v") ∷ [])) ∷ []))
    ∷ []

abbrev strip : Op.Ops
strip = Op.and_then (Op.strip_metadata_key "labels" "k") Op.done

abbrev plan : Plan
plan = record {
  hub_version = "v1";
  spoke_version = "v2";
  hub_to_spoke_ops = strip;
  spoke_to_hub_ops = Op.done;
}

abbrev router : Router
router = record { hub = "v1"; plans = ("v2", some plan) ∷ [] }

router_convert_iff_example :
    (router_convert rt router root "v2" "v1" ≡ ok root) ↔ Route rt router "v2" "v1" root root
router_convert_iff_example = router_convert_iff rt router root "v2" "v1"

baseline_lem_example :
    (md : Json) × KeptOrEmpty (lookup "metadata" root) md
    × (lookup "kind" (baseline root) ≡ (
        if "metadata" == "kind"
        then some md
        else if "kind" == "kind"
        then lookup "kind" root
        else none))
baseline_lem_example = baseline_lem root "kind"

abbrev facts : String → Facts
facts kind = record {
  kind = kind;
  required = [];
  has_additional_properties = false;
  preserve_unknown_fields = none;
  ref = none;
  has_all_of = false;
  has_one_of = false;
  has_any_of = false;
  max_items = none;
  has_default = false;
}

abbrev document : Schema
document =
    schema (facts "object") no_element
      (property "size" (schema (facts "integer") no_element no_properties) no_properties)

normalized : Normalized document
unfolding unresolved_construct
normalized = (refl, ((refl, tt), tt))

flatten_schema-Declared_example :
    All (Declared (build_known_tree document) []) (flatten_schema (some document))
flatten_schema-Declared_example = flatten_schema-Declared document normalized
