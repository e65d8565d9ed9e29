-- ===== src/Engine/Ops/Metadata.antt =====
-- pkg/engine/ops.go: fields kept in metadata annotations and labels.
use declarative_conversion_o.Prelude.{String, not, Option, none, some, [], ◌∷◌, ◌==◌, if◌then◌else◌}
use declarative_conversion_o.Prelude.Result.{ok, err, ◌>>=◌}
use declarative_conversion_o.Engine.Json.{Json, str, as_string}
use declarative_conversion_o.Engine.Failure.{
  Failure, FieldPath, Result, not_a_string, library, invalid_label_key, invalid_label_value,
}
use declarative_conversion_o.Engine.Path.{get_value, delete_value_pruning_empty_maps}
use declarative_conversion_o.Engine.Runtime.{Runtime}
use declarative_conversion_o.Engine.Op.{Context, write}
use declarative_conversion_o.Engine.Ops.Fields.{if_found}

abbrev pub or_fail : {A : Type 0} → Failure → Option A → Result A
or_fail e none = err e
or_fail e (some a) = ok a

-- FieldPath{"metadata", o.metadataField, o.key}
abbrev pub metadata_path : String → String → FieldPath
metadata_path metadata_field key = "metadata" ∷ metadata_field ∷ key ∷ []

module _ (rt : Runtime) where
  open rt use {marshal, unmarshal, is_qualified_name, is_valid_label_value}

  -- The text that a value is stashed as.
  unfoldable pub serialize : FieldPath → String → Json → Result String
  serialize hub_path serialization v =
      if serialization == "String"
      then or_fail (not_a_string "stashAnnotation" hub_path) (as_string v)
      else or_fail (library "stashAnnotation: marshal") (marshal v)

  unfoldable pub check_label : String → String → String → Result String
  check_label metadata_field key value =
      if metadata_field == "labels"
      then (if not (is_qualified_name key)
          then err (invalid_label_key key)
          else if not (is_valid_label_value value)
          then err (invalid_label_value key)
          else ok value)
      else ok value

  unfoldable pub apply_stash_annotation :
      FieldPath → String → String → String → Context → Result Context
  unfolding serialize check_label
  apply_stash_annotation hub_path metadata_field key serialization ctx =
      if_found ctx (get_value ctx.input hub_path) λ v. do
        text ← serialize hub_path serialization v
        value ← check_label metadata_field key text
        write ctx (metadata_path metadata_field key) (str value)

  unfoldable pub deserialize : String → String → Result Json
  deserialize serialization text =
      if serialization == "String"
      then ok (str text)
      else or_fail (library "restoreAnnotation: unmarshal") (unmarshal text)

  unfoldable pub apply_restore_annotation :
      FieldPath → String → String → String → Context → Result Context
  unfolding deserialize
  apply_restore_annotation hub_path metadata_field key serialization ctx =
      if_found ctx (get_value ctx.input (metadata_path metadata_field key)) λ raw. do
        text ←
            or_fail (not_a_string "restoreAnnotation" (metadata_path metadata_field key))
              (as_string raw)
        val ← deserialize serialization text
        ctx' ← write ctx hub_path val
        ok (record ctx' {
          output = delete_value_pruning_empty_maps ctx'.output (metadata_path metadata_field key);
        })

unfoldable pub apply_strip_metadata_key : String → String → Context → Result Context
apply_strip_metadata_key metadata_field key ctx = ok (record ctx {
  output = delete_value_pruning_empty_maps ctx.output (metadata_path metadata_field key);
})
