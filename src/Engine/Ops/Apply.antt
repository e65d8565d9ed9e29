-- ===== src/Engine/Ops/Apply.antt =====
-- pkg/engine/ops.go, passthrough.go: operations that run others, and `apply` for every operation.
use declarative_conversion_o.Prelude.{
  ℕ, suc, String, Bool, true, false, Option, none, some, List, [], ◌∷◌, ◌++◌, map, ◌==◌, length,
  nat_eq, if◌then◌else◌,
}
use declarative_conversion_o.Prelude.Text.{sort_strings}
use declarative_conversion_o.Prelude.Assoc.{lookup}
use declarative_conversion_o.Prelude.Result.{ok, err, ◌>>=◌, map_err}
use declarative_conversion_o.Engine.Json.{Json, str, Object, object, array, as_object, as_array}
use declarative_conversion_o.Engine.Failure.{
  FieldPath, Result, not_an_object, not_an_array, element_not_object, length_mismatch, at_element,
  at_name, no_branch, several_branches, branch_not_object,
}
use declarative_conversion_o.Engine.Path.{get_value, deep_copy_value}
use declarative_conversion_o.Engine.Known.{KnownTree, collect_unknown}
use declarative_conversion_o.Engine.Runtime.{Runtime}
use declarative_conversion_o.Engine.Equal.{json_values_equal}
use declarative_conversion_o.Engine.Op
use declarative_conversion_o.Engine.Op.{Context, write, Op, Ops, Branches}
use declarative_conversion_o.Engine.Ops.Fields.{
  if_found, apply_identity, apply_rename, apply_wrap_scalar, apply_unwrap_scalar,
  apply_array_first_to_object, apply_object_to_singleton_array, apply_collapse_to_map,
  apply_expand_from_map,
}
use declarative_conversion_o.Engine.Ops.Metadata.{
  or_fail, apply_stash_annotation, apply_restore_annotation, apply_strip_metadata_key,
}
use declarative_conversion_o.Engine.Ops.Values.{
  apply_inject_default, apply_drop_field, apply_inject_constant, apply_remap_enum, apply_coerce,
  apply_numeric_scale, apply_join_list, apply_split_list, apply_quantity, apply_duration,
}
use declarative_conversion_o.Engine.Ops.Maps.{
  apply_array_to_map_by_key, apply_map_to_array_by_key, apply_map_key_rename,
}
use declarative_conversion_o.Engine.Ops.External.{
  apply_split_field, apply_json_patch, apply_join_fields, apply_cel,
}

-- Running operations inside a fresh context: &execContext{input: m, output: map[string]any{}}.
abbrev pub nested_context : Object → Context
nested_context m = record { input = m; output = []; input_json = none }

-- The length of a destination array that the input has already.
unfoldable pub check_destination :
    FieldPath → FieldPath → List Json → Option Json → Result (List Json)
check_destination src dst elems none = ok elems
check_destination src dst elems (some v) = do
  dst_elems ← or_fail (not_an_array "forEach" dst) (as_array v)
  if nat_eq (length dst_elems) (length elems)
      then ok elems
      else err (length_mismatch src (length elems) dst (length dst_elems))

-- The loop of `forEachOp` from element `i`; `run` applies the nested operations.
unfoldable pub for_each_element :
    FieldPath → (Context → Result Context) → ℕ → List Json → Result (List Json)
for_each_element src run i [] = ok []
for_each_element src run i (elem ∷ elems) = do
  m ← or_fail (element_not_object "forEach" i src) (as_object elem)
  ctx ← map_err (at_element "forEach" i) (run (nested_context m))
  rest ← for_each_element src run (suc i) elems
  ok (object ctx.output ∷ rest)

unfoldable pub apply_for_each :
    FieldPath → FieldPath → (Context → Result Context) → Context → Result Context
unfolding check_destination for_each_element
apply_for_each src dst run ctx = if_found ctx (get_value ctx.input src) λ v. do
  elems ← or_fail (not_an_array "forEach" src) (as_array v)
  checked ← check_destination src dst elems (get_value ctx.input dst)
  out ← for_each_element src run 0 checked
  write ctx dst (array out)

-- A compiled branch whose source is set, with its nested operations as a function.
pub record Active : Type 0 where
  pub src_branch : String
  pub dst_branch : String
  pub dst_discriminator : String
  pub value : Json
  pub has_nested : Bool
  pub run : Context → Result Context

-- What is written for the active branch.
unfoldable pub branch_value : FieldPath → Active → Result Json
branch_value src b =
    if b.has_nested
    then (do
      m ← or_fail (branch_not_object b.src_branch src) (as_object b.value)
      ctx ← map_err (at_name "branchMap" b.src_branch) (b.run (nested_context m))
      ok (object ctx.output))
    else ok (deep_copy_value b.value)

unfoldable pub apply_active :
    FieldPath → FieldPath → String → List String → Context → List Active → Result Context
unfolding branch_value
apply_active src dst discriminator names ctx [] = err (no_branch src (sort_strings names))
apply_active src dst discriminator names ctx (b ∷ []) = do
  value ← branch_value src b
  ctx' ← write ctx (dst ++ b.dst_branch ∷ []) value
  if discriminator == ""
      then ok ctx'
      else write ctx' (dst ++ discriminator ∷ []) (str b.dst_discriminator)
apply_active src dst discriminator names ctx (b ∷ c ∷ more) =
    err (several_branches (sort_strings (map (λ (a : Active). a.src_branch) (b ∷ c ∷ more))) src)

-- The writes of `passthroughUnknownOp`; the first error ends them.
unfoldable pub write_all : List (FieldPath × Json) → Context → Result Context
write_all [] ctx = ok ctx
write_all ((path, v) ∷ rest) ctx = do ctx' ← write ctx path (deep_copy_value v); write_all rest ctx'

unfoldable pub apply_passthrough_unknown : KnownTree → Context → Result Context
unfolding write_all
apply_passthrough_unknown tree ctx = write_all (collect_unknown tree (object ctx.input) []) ctx

abbrev pub set_branch :
    String → String → String → Bool → (Context → Result Context) → Option Json → List Active
set_branch src dst disc has_nested run none = []
set_branch src dst disc has_nested run (some v) =
    record {
      src_branch = src;
      dst_branch = dst;
      dst_discriminator = disc;
      value = v;
      has_nested = has_nested;
      run = run;
    }
    ∷ []

unfoldable pub branch_names : Branches → List String
branch_names Op.no_branches = []
branch_names (Op.branch src dst disc nested bs) = src ∷ branch_names bs

abbrev pub has_ops : Ops → Bool
has_ops Op.done = false
has_ops (Op.and_then op ops) = true

module _ (rt : Runtime) where
  unfoldable mutual
    unfolding branch_names

    pub apply : Op → Context → Result Context
    apply (Op.identity path) ctx = apply_identity path ctx
    apply (Op.rename from to) ctx = apply_rename from to ctx
    apply (Op.wrap_scalar s o key defaults) ctx = apply_wrap_scalar s o key defaults ctx
    apply (Op.unwrap_scalar o s key) ctx = apply_unwrap_scalar o s key ctx
    apply (Op.array_first_to_object a o) ctx = apply_array_first_to_object a o ctx
    apply (Op.object_to_singleton_array o a) ctx = apply_object_to_singleton_array o a ctx
    apply (Op.collapse_to_map paths m keys) ctx = apply_collapse_to_map paths m keys ctx
    apply (Op.expand_from_map m paths keys policy) ctx =
        apply_expand_from_map m paths keys policy ctx
    apply (Op.stash_annotation hub f key how) ctx = apply_stash_annotation rt hub f key how ctx
    apply (Op.restore_annotation hub f key how) ctx = apply_restore_annotation rt hub f key how ctx
    apply (Op.remap_enum path table policy) ctx = apply_remap_enum rt path table policy ctx
    apply (Op.inject_default path value) ctx = apply_inject_default path value ctx
    apply Op.drop_field ctx = apply_drop_field ctx
    apply (Op.strip_metadata_key f key) ctx = apply_strip_metadata_key f key ctx
    apply (Op.inject_constant path value) ctx = apply_inject_constant path value ctx
    apply (Op.json_patch patch paths) ctx = apply_json_patch rt patch paths ctx
    apply (Op.for_each src dst nested) ctx = apply_for_each src dst (apply_ops nested) ctx
    apply (Op.when path equals inner) ctx =
        if_found ctx (get_value ctx.input path)
          λ v. if json_values_equal rt v equals then apply inner ctx else ok ctx
    apply (Op.coerce path kind frac) ctx = apply_coerce rt path kind frac ctx
    apply (Op.split_field src pattern dests kinds) ctx =
        apply_split_field rt src pattern dests kinds ctx
    apply (Op.join_fields srcs dest tmpl) ctx = apply_join_fields srcs dest tmpl ctx
    apply (Op.array_to_map_by_key a m key) ctx = apply_array_to_map_by_key a m key ctx
    apply (Op.map_to_array_by_key m a key) ctx = apply_map_to_array_by_key m a key ctx
    apply (Op.numeric_scale from to factor multiply rounds) ctx =
        apply_numeric_scale rt from to factor multiply rounds ctx
    apply (Op.join_list a s separator) ctx = apply_join_list rt a s separator ctx
    apply (Op.split_list s a separator kind) ctx = apply_split_list rt s a separator kind ctx
    apply (Op.branch_map src dst discriminator branches) ctx =
        if_found ctx (get_value ctx.input src) λ v. do
          m ← or_fail (not_an_object "branchMap" src) (as_object v)
          apply_active src dst discriminator (branch_names branches) ctx
              (active_branches branches m)
    apply (Op.map_key_rename src dst renames) ctx = apply_map_key_rename src dst renames ctx
    apply (Op.quantity src dst to_integer) ctx = apply_quantity rt src dst to_integer ctx
    apply (Op.duration src dst to_integer) ctx = apply_duration rt src dst to_integer ctx
    apply (Op.cel prg dests) ctx = apply_cel prg dests ctx
    apply (Op.passthrough_unknown tree) ctx = apply_passthrough_unknown tree ctx

    -- for _, op := range ops { if err := op.apply(ctx); err != nil { … } }
    pub apply_ops : Ops → Context → Result Context
    apply_ops Op.done ctx = ok ctx
    apply_ops (Op.and_then op ops) ctx = apply op ctx >>= apply_ops ops

    -- The branches whose source the union has set.
    pub active_branches : Branches → Object → List Active
    active_branches Op.no_branches m = []
    active_branches (Op.branch src dst disc nested bs) m =
        set_branch src dst disc (has_ops nested) (apply_ops nested) (lookup src m)
        ++ active_branches bs m
