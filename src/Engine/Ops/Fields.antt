-- ===== src/Engine/Ops/Fields.antt =====
-- pkg/engine/ops.go: the operations that move, wrap and gather fields.
use declarative_conversion_o.Prelude.{
  String, Bool, true, false, Option, none, some, List, [], ◌∷◌, map, ◌==◌, any, is_some,
  if◌then◌else◌,
}
use declarative_conversion_o.Prelude.Assoc.{Map, lookup, insert}
use declarative_conversion_o.Prelude.Result.{ok, err, ◌>>=◌}
use declarative_conversion_o.Engine.Json.{Json, Object, object, array, as_object, as_array}
use declarative_conversion_o.Engine.Failure.{FieldPath, Result, not_an_object, unexpected_key}
use declarative_conversion_o.Engine.Path.{get_value, deep_copy_value, path_string, last_segment}
use declarative_conversion_o.Engine.Kind.{UnknownKeyPolicy, is_error}
use declarative_conversion_o.Engine.Op.{Context, write}

-- `v, ok := …; if !ok { return nil }`
abbrev pub if_found : {A : Type 0} → Context → Option A → (A → Result Context) → Result Context
if_found ctx none k = ok ctx
if_found ctx (some v) k = k v

unfoldable pub apply_identity : FieldPath → Context → Result Context
apply_identity path ctx =
    if_found ctx (get_value ctx.input path) λ v. write ctx path (deep_copy_value v)

unfoldable pub apply_rename : FieldPath → FieldPath → Context → Result Context
apply_rename from to ctx =
    if_found ctx (get_value ctx.input from) λ v. write ctx to (deep_copy_value v)

-- for k, d := range defaults { obj[k] = deepCopyValue(d) }
unfoldable pub copy_defaults : Object → Object → Object
copy_defaults [] dst = dst
copy_defaults ((k, d) ∷ defaults) dst = copy_defaults defaults (insert k (deep_copy_value d) dst)

unfoldable pub apply_wrap_scalar :
    FieldPath → FieldPath → String → Object → Context → Result Context
unfolding copy_defaults
apply_wrap_scalar scalar_path object_path key defaults ctx =
    if_found ctx (get_value ctx.input scalar_path) λ v.
      write ctx object_path (object (insert key (deep_copy_value v) (copy_defaults defaults [])))

unfoldable pub apply_unwrap_scalar : FieldPath → FieldPath → String → Context → Result Context
apply_unwrap_scalar object_path scalar_path key ctx =
    if_found ctx (get_value ctx.input object_path) λ v.
      if_found ctx (as_object v)
        λ m. if_found ctx (lookup key m) λ val. write ctx scalar_path (deep_copy_value val)

-- arr[0] of a value that is a non-empty array
abbrev pub first_element : Option (List Json) → Option Json
first_element (some (v ∷ vs)) = some v
first_element _ = none

unfoldable pub apply_array_first_to_object : FieldPath → FieldPath → Context → Result Context
apply_array_first_to_object array_path object_path ctx =
    if_found ctx (get_value ctx.input array_path) λ v.
      if_found ctx (first_element (as_array v))
        λ first. write ctx object_path (deep_copy_value first)

unfoldable pub apply_object_to_singleton_array : FieldPath → FieldPath → Context → Result Context
apply_object_to_singleton_array object_path array_path ctx =
    if_found ctx (get_value ctx.input object_path)
      λ v. write ctx array_path (array (deep_copy_value v ∷ []))

-- keyNames[fp.String()], and the last segment where that is "" or missing
abbrev named_key : String → Option String → String
named_key last none = last
named_key last (some key) = if key == "" then last else key

unfoldable pub key_for : Map String → FieldPath → String
key_for key_names fp = named_key (last_segment fp) (lookup (path_string fp) key_names)

-- m[key] = deepCopyValue(v), if the field is there
abbrev pub add_field : String → Option Json → Object → Object
add_field key none m = m
add_field key (some v) m = insert key (deep_copy_value v) m

-- The loop of `collapseToMapOp`: what it has put into the map and whether it found any field.
unfoldable pub collapse_fields :
    Object → Map String → List FieldPath → Object → Bool → Object × Bool
collapse_fields input key_names [] m found = (m, found)
collapse_fields input key_names (fp ∷ fps) m found =
    let here = get_value input fp in
    collapse_fields input key_names fps (add_field (key_for key_names fp) here m)
      (if is_some here then true else found)

unfoldable pub apply_collapse_to_map :
    List FieldPath → FieldPath → Map String → Context → Result Context
unfolding collapse_fields key_for
apply_collapse_to_map field_paths map_path key_names ctx =
    let (m, found) = collapse_fields ctx.input key_names field_paths [] false in
    if found then write ctx map_path (object m) else ok ctx

unfoldable pub expand_fields : Object → Map String → List FieldPath → Context → Result Context
expand_fields m key_names [] ctx = ok ctx
expand_fields m key_names (fp ∷ fps) ctx = do
  ctx' ← if_found ctx (lookup (key_for key_names fp) m) λ val. write ctx fp (deep_copy_value val)
  expand_fields m key_names fps ctx'

-- The first key of the map that no field is known by.
unfoldable pub first_unknown : List String → Object → Option String
first_unknown known [] = none
first_unknown known ((k, v) ∷ m) = if any (λ j. j == k) known then first_unknown known m else some k

abbrev pub fail_on : FieldPath → Context → Option String → Result Context
fail_on path ctx none = ok ctx
fail_on path ctx (some k) = err (unexpected_key k path)

abbrev pub expand_object :
    FieldPath
    → List FieldPath
    → Map String
    → UnknownKeyPolicy
    → Context
    → Option Object
    → Result Context
expand_object map_path field_paths key_names on_unknown ctx none =
    err (not_an_object "expandFromMap" map_path)
expand_object map_path field_paths key_names on_unknown ctx (some m) = do
  ctx' ← expand_fields m key_names field_paths ctx
  if is_error on_unknown
      then fail_on map_path ctx' (first_unknown (map (key_for key_names) field_paths) m)
      else ok ctx'

unfoldable pub apply_expand_from_map :
    FieldPath → List FieldPath → Map String → UnknownKeyPolicy → Context → Result Context
unfolding expand_fields first_unknown key_for
apply_expand_from_map map_path field_paths key_names on_unknown ctx =
    if_found ctx (get_value ctx.input map_path)
      λ v. expand_object map_path field_paths key_names on_unknown ctx (as_object v)
