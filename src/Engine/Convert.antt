-- ===== src/Engine/Convert.antt =====
-- pkg/engine/convert.go: running a plan on an object, and routing between versions over the hub.
pub mod Routing
pub mod Metadata
use declarative_conversion_o.Prelude.{String, Option, none, some, [], ◌==◌, if◌then◌else◌}
use declarative_conversion_o.Prelude.Assoc.{Map, lookup, insert}
use declarative_conversion_o.Prelude.Result.{ok, err, ◌>>=◌, map_err}
use declarative_conversion_o.Engine.Json.{Json, null, Object, object}
use declarative_conversion_o.Engine.Failure.{Result, at_name, no_plan, nil_plan}
use declarative_conversion_o.Engine.Path.{deep_copy_value}
use declarative_conversion_o.Engine.Runtime.{Runtime}
use declarative_conversion_o.Engine.Op.{
  Context, Plan, Direction, hub_to_spoke, spoke_to_hub, plan_ops,
}
use declarative_conversion_o.Engine.Ops.Apply.{apply_ops, nested_context}

-- (Direction).String
abbrev pub direction_name : Direction → String
direction_name hub_to_spoke = "hub_to_spoke"
direction_name spoke_to_hub = "spoke_to_hub"

-- output["kind"] = kind, where the object has one
abbrev with_kind : Option Json → Object → Object
with_kind none out = out
with_kind (some kind) out = insert "kind" kind out

-- The metadata of the object, or an empty map where it is absent or null.
abbrev pub baseline_metadata : Option Json → Json
baseline_metadata none = object []
baseline_metadata (some null) = object []
baseline_metadata (some md) = deep_copy_value md

-- What the output holds before any operation runs.
unfoldable pub baseline : Object → Object
baseline root =
    insert "metadata" (baseline_metadata (lookup "metadata" root))
      (with_kind (lookup "kind" root) [])

abbrev pub start : Object → Context
start root = record (nested_context root) { output = baseline root }

pub record Router : Type 0 where
  pub hub : String
  pub plans : Map (Option Plan)

module _ (rt : Runtime) where
  -- `none` is the nil plan.
  unfoldable pub convert : Option Plan → Direction → Object → Result Object
  convert none dir obj = err nil_plan
  convert (some plan) dir obj = do
    ctx ←
        map_err (at_name "convert" (direction_name dir))
          (apply_ops rt (plan_ops plan dir) (start obj))
    ok ctx.output

  run_plan : String → Direction → Object → Option (Option Plan) → Result Object
  run_plan version dir obj none = err (no_plan version)
  run_plan version dir obj (some plan) = map_err (at_name "router" version) (convert plan dir obj)

  -- One hop between the hub and a spoke, or no compiled plan for it. A map of pointers can hold nil.
  unfoldable pub hop : Router → String → Direction → Object → Result Object
  unfolding run_plan
  hop r version dir obj = run_plan version dir obj (lookup version r.plans)

  -- (*Router).Convert
  unfoldable pub router_convert : Router → Object → String → String → Result Object
  router_convert r obj from to = if from == to then ok obj else (do
    hub_obj ← if from == r.hub then ok obj else hop r from spoke_to_hub obj
    if to == r.hub then ok hub_obj else hop r to hub_to_spoke hub_obj)
