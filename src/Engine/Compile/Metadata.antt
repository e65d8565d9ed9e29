-- ===== src/Engine/Compile/Metadata.antt =====
-- pkg/engine/compile.go: the resolvers of rules that keep a field in an annotation or a label.
use declarative_conversion_o.Prelude.{
  ℕ, String, Bool, true, false, not, ◌&&◌, some, ◌==◌, if◌then◌else◌,
}
use declarative_conversion_o.Engine.Failure.{FieldPath}
use declarative_conversion_o.Engine.Runtime.{Runtime}
use declarative_conversion_o.Engine.Op.{Op}
use declarative_conversion_o.Engine.Schema.{Schema}
use declarative_conversion_o.Engine.Problem.{invalid_key, json_label}
use declarative_conversion_o.Engine.Diagnostics.{verdict}
use declarative_conversion_o.Engine.Rule.{Strategy}
use declarative_conversion_o.Engine.Compile.Claims.{
  ◌|>◌, Log, Resolved, resolved, add_error_if, claim_hub_subtree, claim_spoke_subtree, find,
  check_path,
}

abbrev is_to_label : Strategy → Bool
is_to_label Strategy.to_label = true
is_to_label _ = false

abbrev is_from_label : Strategy → Bool
is_from_label Strategy.from_label = true
is_from_label _ = false

-- The name of the strategy in messages.
abbrev strategy_name : Strategy → String
strategy_name Strategy.to_annotation = "ToAnnotation"
strategy_name Strategy.to_label = "ToLabel"
strategy_name Strategy.from_annotation = "FromAnnotation"
strategy_name Strategy.from_label = "FromLabel"
strategy_name _ = ""

abbrev field_name : Bool → String
field_name label = if label then "labels" else "annotations"

abbrev or_text : String → String → String
or_text s default = if s == "" then default else s

module _ (rt : Runtime) where
  unfoldable pub resolve_to_metadata :
      ℕ → Strategy → FieldPath → String → String → Bool → Schema → Log → Resolved
  resolve_to_metadata idx strategy hub_path key serialization restore hub log =
      let label = is_to_label strategy in
      let name = strategy_name strategy in
      let form = or_text serialization "JSON" in
      resolved (some (Op.stash_annotation hub_path (field_name label) key form))
        (some (
          if restore
          then Op.restore_annotation hub_path (field_name label) key form
          else Op.strip_metadata_key (field_name label) key))
        (verdict true restore)
        (log
          |> check_path idx name "" hub hub_path
          |> claim_hub_subtree "hub" idx hub_path (find hub hub_path)
          |> add_error_if (label && not (rt.is_qualified_name key)) idx (invalid_key name key))

  unfoldable pub resolve_from_metadata :
      ℕ → Strategy → FieldPath → String → String → Bool → Schema → Log → Resolved
  resolve_from_metadata idx strategy spoke_path key serialization stash spoke log =
      let label = is_from_label strategy in
      let name = strategy_name strategy in
      let form = or_text serialization (if label then "String" else "JSON") in
      resolved (some (Op.restore_annotation spoke_path (field_name label) key form))
        (some (
          if stash
          then Op.stash_annotation spoke_path (field_name label) key form
          else Op.strip_metadata_key (field_name label) key))
        (verdict true stash)
        (log
          |> check_path idx name "" spoke spoke_path
          |> claim_spoke_subtree "spoke" idx spoke_path (find spoke spoke_path)
          |> add_error_if (label && (serialization == "JSON")) idx json_label
          |> add_error_if (label && not (rt.is_qualified_name key)) idx (invalid_key name key))
