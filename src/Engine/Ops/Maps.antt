-- ===== src/Engine/Ops/Maps.antt =====
-- pkg/engine/ops.go and mapkeyrename.go: arrays of objects as maps and back, and renamed map keys.
use declarative_conversion_o.Prelude.{
  ℕ, suc, String, none, some, List, [], ◌∷◌, map, ◌==◌, is_some, and_then, if◌then◌else◌,
}
use declarative_conversion_o.Prelude.Text.{sort_strings}
use declarative_conversion_o.Prelude.Assoc.{Map, lookup, insert}
use declarative_conversion_o.Prelude.Result.{ok, err, ◌>>=◌}
use declarative_conversion_o.Engine.Json.{
  Json, str, Object, object, array, as_object, as_array, as_string,
}
use declarative_conversion_o.Engine.Failure.{
  FieldPath, Result, not_an_object, not_an_array, element_not_object, entry_not_object,
  missing_key_field, key_field_not_string, duplicate_key, key_collision,
}
use declarative_conversion_o.Engine.Path.{get_value, deep_copy_value}
use declarative_conversion_o.Engine.Op.{Context, write}
use declarative_conversion_o.Engine.Ops.Fields.{if_found}
use declarative_conversion_o.Engine.Ops.Metadata.{or_fail}

-- The copy of an element that leaves the key field out.
unfoldable pub copy_without : String → Object → Object → Object
copy_without key_field [] rest = rest
copy_without key_field ((k, v) ∷ m) rest =
    copy_without key_field m (if k == key_field then rest else insert k (deep_copy_value v) rest)

-- The loop of `arrayToMapByKeyOp` from element `i`.
unfoldable pub key_elements : FieldPath → String → ℕ → List Json → Object → Result Object
unfolding copy_without
key_elements array_path key_field i [] out = ok out
key_elements array_path key_field i (elem ∷ elems) out = do
  m ← or_fail (element_not_object "arrayToMapByKey" i array_path) (as_object elem)
  key_val ← or_fail (missing_key_field i array_path key_field) (lookup key_field m)
  key ← or_fail (key_field_not_string i array_path key_field) (as_string key_val)
  fresh ← if is_some (lookup key out) then err (duplicate_key key array_path) else ok out
  key_elements array_path key_field (suc i) elems
      (insert key (object (copy_without key_field m [])) fresh)

unfoldable pub apply_array_to_map_by_key : FieldPath → FieldPath → String → Context → Result Context
unfolding key_elements
apply_array_to_map_by_key array_path map_path key_field ctx =
    if_found ctx (get_value ctx.input array_path) λ v. do
      elems ← or_fail (not_an_array "arrayToMapByKey" array_path) (as_array v)
      out ← key_elements array_path key_field 0 elems []
      write ctx map_path (object out)

-- for kk, vv := range valMap { elem[kk] = deepCopyValue(vv) }
unfoldable pub copy_entries : Object → Object → Object
copy_entries [] elem = elem
copy_entries ((k, v) ∷ m) elem = copy_entries m (insert k (deep_copy_value v) elem)

-- The loop of `mapToArrayByKeyOp` over the sorted keys.
unfoldable pub list_entries : FieldPath → String → Object → List String → Result (List Json)
unfolding copy_entries
list_entries map_path key_field m [] = ok []
list_entries map_path key_field m (k ∷ keys) = do
  val ← or_fail (entry_not_object map_path k) (and_then (lookup k m) as_object)
  rest ← list_entries map_path key_field m keys
  ok (object (copy_entries val ((key_field, str k) ∷ [])) ∷ rest)

unfoldable pub apply_map_to_array_by_key : FieldPath → FieldPath → String → Context → Result Context
unfolding list_entries
apply_map_to_array_by_key map_path array_path key_field ctx =
    if_found ctx (get_value ctx.input map_path) λ v. do
      m ← or_fail (not_an_object "mapToArrayByKey" map_path) (as_object v)
      elems ← list_entries map_path key_field m (sort_strings (map (λ e. e.0) m))
      write ctx array_path (array elems)

-- The key that a key is renamed to, itself where no rename names it.
abbrev pub renamed : Map String → String → String
renamed renames k = elim (lookup k renames) [ none ↦ k | some mapped ↦ mapped ]

-- The loop of `mapKeyRenameOp`. The code stores each value without a copy, so that its output shares
-- the values with the input until the end of the plan; here the value is what it is at this moment.
unfoldable pub rename_keys : FieldPath → Map String → Object → Object → Result Object
rename_keys dst renames [] out = ok out
rename_keys dst renames ((k, val) ∷ m) out = do
  fresh ←
      if is_some (lookup (renamed renames k) out)
      then err (key_collision (renamed renames k) dst)
      else ok out
  rename_keys dst renames m (insert (renamed renames k) val fresh)

unfoldable pub apply_map_key_rename : FieldPath → FieldPath → Map String → Context → Result Context
unfolding rename_keys
apply_map_key_rename src dst renames ctx = if_found ctx (get_value ctx.input src) λ v. do
  m ← or_fail (not_an_object "mapKeyRename" src) (as_object v)
  out ← rename_keys dst renames m []
  write ctx dst (object out)
