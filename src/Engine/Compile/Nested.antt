-- ===== src/Engine/Compile/Nested.antt =====
-- pkg/engine/compile.go: resolveForEach, given what the nested rules are resolved to.
use declarative_conversion_o.Prelude.{
  ℕ, String, true, Option, none, some, ◌==◌, map, ltb, if◌then◌else◌, is_empty,
}
use declarative_conversion_o.Prelude.Text.{append}
use declarative_conversion_o.Engine.Failure.{FieldPath}
use declarative_conversion_o.Engine.Path.{path_string}
use declarative_conversion_o.Engine.Op.{Op, of_op_list}
use declarative_conversion_o.Engine.Schema.{Schema, element_of}
use declarative_conversion_o.Engine.Problem.{Problem, too_deep, no_item_schema, in_item}
use declarative_conversion_o.Engine.Diagnostics.{
  Diagnostic, UncoveredSide, no_side, hub_side, spoke_side, verdict,
}
use declarative_conversion_o.Engine.Compile.Claims.{
  ◌|>◌, Log, Resolved, resolved, add, add_error, claim_hub, claim_spoke, find, check_path,
}
use declarative_conversion_o.Engine.Compile.Leftovers.{Built}

-- const MaxForEachDepth = 2
abbrev pub max_for_each_depth : ℕ
max_for_each_depth = 2

unfoldable pub qualify_under_items_path : FieldPath → String → String
qualify_under_items_path items_path relative =
    if relative == ""
    then path_string items_path
    else if is_empty items_path
    then relative
    else append (path_string items_path) (append "." relative)

abbrev qualified : FieldPath → FieldPath → UncoveredSide → String → String
qualified hub_path spoke_path no_side path = path
qualified hub_path spoke_path hub_side path = qualify_under_items_path hub_path path
qualified hub_path spoke_path spoke_side path = qualify_under_items_path spoke_path path

-- A diagnostic of the nested rules, with its paths under those of the rule that holds them.
unfoldable pub lift_diagnostic :
    (Problem → Problem) → FieldPath → FieldPath → Diagnostic → Diagnostic
unfolding qualify_under_items_path
lift_diagnostic wrap hub_path spoke_path d = record d {
  problem = wrap d.problem;
  field_path = qualified hub_path spoke_path d.uncovered_side d.field_path;
}

abbrev items_of : Option Schema → Option Schema
items_of none = none
items_of (some array) = element_of array

-- The nested rules, where both arrays have an item schema.
abbrev with_items :
    ℕ
    → FieldPath
    → FieldPath
    → (Schema → Schema → Built)
    → Option Schema
    → Option Schema
    → Log
    → Resolved
with_items idx hub_path spoke_path nested (some hub_item) (some spoke_item) log =
    let b = nested hub_item spoke_item in
    resolved (some (Op.for_each hub_path spoke_path (of_op_list b.to_spoke)))
      (some (Op.for_each spoke_path hub_path (of_op_list b.to_hub))) b.lossless
      (add (map (lift_diagnostic in_item hub_path spoke_path) b.diags) log)
with_items idx hub_path spoke_path nested _ _ log =
    resolved none none (verdict true true) (add_error idx no_item_schema log)

unfoldable pub resolve_for_each :
    ℕ → FieldPath → FieldPath → Schema → Schema → ℕ → (Schema → Schema → Built) → Log → Resolved
unfolding lift_diagnostic
resolve_for_each idx hub_path spoke_path hub spoke depth nested log =
    if ltb depth max_for_each_depth
    then with_items idx hub_path spoke_path nested (items_of (find hub hub_path))
        (items_of (find spoke spoke_path))
        (log
          |> check_path idx "ForEach" "hub" hub hub_path
          |> check_path idx "ForEach" "spoke" spoke spoke_path
          |> claim_hub idx hub_path
          |> claim_spoke idx spoke_path)
    else resolved none none (verdict true true) (add_error idx too_deep log)
