-- ===== src/Engine/Ops/External.antt =====
-- pkg/engine/ops.go and cel.go: the operations that run a regexp, a template, a patch or a program.
use declarative_conversion_o.Prelude.{
  String, Option, none, some, List, [], ◌∷◌, ◌==◌, is_empty, if◌then◌else◌,
}
use declarative_conversion_o.Prelude.Assoc.{Map, lookup, insert}
use declarative_conversion_o.Prelude.Result.{ok, ◌>>=◌, map_err}
use declarative_conversion_o.Engine.Json.{Json, null, str, Object, object, as_object, as_string}
use declarative_conversion_o.Engine.Failure.{
  FieldPath, Result, not_a_string, no_match, no_capture_group, at_name, at_field, library,
}
use declarative_conversion_o.Engine.Path.{get_value, delete_value, deep_copy_value, path_string}
use declarative_conversion_o.Engine.Kind.{FieldKind}
use declarative_conversion_o.Engine.Runtime.{Runtime, Regexp, Template, Patch, Program}
use declarative_conversion_o.Engine.Coerce.{coerce_scalar_value}
use declarative_conversion_o.Engine.Op.{Context, write}
use declarative_conversion_o.Engine.Ops.Fields.{if_found}
use declarative_conversion_o.Engine.Ops.Metadata.{or_fail}

-- captured[name] = match[i], for each name that is not ""
unfoldable pub capture_groups : List String → List String → Map String → Map String
capture_groups (name ∷ names) (text ∷ texts) captured =
    capture_groups names texts (if name == "" then captured else insert name text captured)
capture_groups _ _ captured = captured

abbrev pub kind_of : Option FieldKind → FieldKind
kind_of none = FieldKind.unknown
kind_of (some k) = k

-- json.Unmarshal into a map: null leaves it nil, which reads as empty.
abbrev pub document : Option Json → Option Object
document none = none
document (some null) = some []
document (some v) = as_object v

-- One touched path: copied from the patched document, or absent from the output as there.
abbrev pub touch : Object → FieldPath → Context → Option Json → Result Context
touch full p ctx (some v) =
    map_err (at_field "jsonPatch: writing" p) (write ctx p (deep_copy_value v))
touch full p ctx none = ok (record ctx { output = delete_value ctx.output p })

unfoldable pub copy_touched : Object → List FieldPath → Context → Result Context
copy_touched full [] ctx = ok ctx
copy_touched full (p ∷ ps) ctx = do
  ctx' ← touch full p ctx (get_value full p)
  copy_touched full ps ctx'

module _ (rt : Runtime) where
  open rt use {marshal, unmarshal}

  -- The loop of `splitFieldOp` over the destinations.
  unfoldable pub write_groups :
      Map String → Map FieldKind → Map FieldPath → Context → Result Context
  write_groups captured kinds [] ctx = ok ctx
  write_groups captured kinds ((name, path) ∷ dests) ctx = do
    raw ← or_fail (no_capture_group name) (lookup name captured)
    coerced ←
        map_err (at_name "splitField" name)
          (coerce_scalar_value rt (str raw) (kind_of (lookup name kinds)))
    ctx' ← write ctx path coerced
    write_groups captured kinds dests ctx'

  unfoldable pub apply_split_field :
      FieldPath → Regexp → Map FieldPath → Map FieldKind → Context → Result Context
  unfolding write_groups capture_groups
  apply_split_field source_path pattern dest_fields dest_kinds ctx =
      if_found ctx (get_value ctx.input source_path) λ v. do
        s ← or_fail (not_a_string "splitField" source_path) (as_string v)
        texts ← or_fail (no_match s source_path) (pattern.find_submatch s)
        write_groups (capture_groups pattern.names texts []) dest_kinds dest_fields ctx

  unfoldable pub cached_or_marshal : Context → Option String → Result (String × Context)
  cached_or_marshal ctx (some b) = ok (b, ctx)
  cached_or_marshal ctx none = do
    b ← or_fail (library "jsonPatch: marshal input") (marshal (object ctx.input))
    ok (b, record ctx { input_json = some b })

  -- ctx.inputJSON, marshalled on first use and kept
  unfoldable pub marshal_input : Context → Result (String × Context)
  unfolding cached_or_marshal
  marshal_input ctx = cached_or_marshal ctx ctx.input_json

  unfoldable pub apply_json_patch : Patch → List FieldPath → Context → Result Context
  unfolding marshal_input copy_touched
  apply_json_patch patch touched_paths ctx = do
    marshalled ← marshal_input ctx
    patched ← or_fail (library "jsonPatch: apply") (patch.apply marshalled.0)
    full ← or_fail (library "jsonPatch: unmarshal patched input") (document (unmarshal patched))
    copy_touched full touched_paths marshalled.1

abbrev pub gather_field : String → Option Json → Map Json → Map Json
gather_field name none m = m
gather_field name (some v) m = insert name v m

-- for name, srcPath := range o.srcFields
unfoldable pub gather_fields : Object → Map FieldPath → Map Json → Map Json
gather_fields input [] gathered = gathered
gather_fields input ((name, path) ∷ srcs) gathered =
    gather_fields input srcs (gather_field name (get_value input path) gathered)

unfoldable pub apply_join_fields : Map FieldPath → FieldPath → Template → Context → Result Context
unfolding gather_fields
apply_join_fields src_fields dest_path tmpl ctx =
    let gathered = gather_fields ctx.input src_fields [] in
    if is_empty gathered then ok ctx else (do
      text ← or_fail (library "joinFields: template execution") (tmpl.execute gathered)
      write ctx dest_path (str text))

unfoldable pub lookup_cel_result : Object → FieldPath → Option Json
lookup_cel_result m path = elim (get_value m path) [
  | some v ↦ some v
  | none ↦ lookup (path_string path) m
]

unfoldable pub write_results : Object → List FieldPath → Context → Result Context
write_results m [] ctx = ok ctx
write_results m (p ∷ ps) ctx = do
  ctx' ← if_found ctx (lookup_cel_result m p) λ v. write ctx p v
  write_results m ps ctx'

unfoldable pub apply_cel : Program → List FieldPath → Context → Result Context
unfolding write_results lookup_cel_result
apply_cel prg dests ctx = do
  out ← or_fail (library "cel") (prg.eval ctx.input)
  m ← or_fail (library "cel: result must be a map") (as_object out)
  write_results m dests ctx
