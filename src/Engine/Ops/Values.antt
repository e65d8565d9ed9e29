-- ===== src/Engine/Ops/Values.antt =====
-- pkg/engine/ops.go and k8sunits.go: the operations that rewrite one scalar.
use declarative_conversion_o.Prelude.{
  ℕ, suc, String, Bool, true, false, Option, none, some, List, [], ◌∷◌, ◌==◌, if◌then◌else◌,
}
use declarative_conversion_o.Prelude.Int.{mul64, div_ℕ, divides_ℕ}
use declarative_conversion_o.Prelude.Text.{format_int, format_bool, split, join, append}
use declarative_conversion_o.Prelude.Assoc.{Map, lookup}
use declarative_conversion_o.Prelude.Result.{ok, err, ◌>>=◌, map_err}
use declarative_conversion_o.Engine.Json.{
  Json, str, bool, num, float64, int64, int, int32, Float64, array, as_array, as_string,
}
use declarative_conversion_o.Engine.Failure.{
  FieldPath, Result, unmapped_value, not_numeric, not_an_array, not_a_string, at_element, at_field,
  library, not_whole_seconds,
}
use declarative_conversion_o.Engine.Path.{get_value, deep_copy_value}
use declarative_conversion_o.Engine.Kind.{
  FieldKind, UnknownKeyPolicy, is_error, FractionalIntegerPolicy,
}
use declarative_conversion_o.Engine.Runtime.{Runtime}
use declarative_conversion_o.Engine.Coerce.{
  as_float64, format_number, coerce_scalar_value, coerce_scalar_value_with_policy,
}
use declarative_conversion_o.Engine.Op.{Context, write}
use declarative_conversion_o.Engine.Ops.Fields.{if_found}
use declarative_conversion_o.Engine.Ops.Metadata.{or_fail}

unfoldable pub apply_inject_default : FieldPath → Json → Context → Result Context
apply_inject_default path value ctx = write ctx path (deep_copy_value value)

unfoldable pub apply_drop_field : Context → Result Context
apply_drop_field ctx = ok ctx

unfoldable pub apply_inject_constant : FieldPath → Json → Context → Result Context
apply_inject_constant path value ctx = write ctx path (deep_copy_value value)

-- time.Second
abbrev pub second : ℕ
second = 1000000000

module _ (rt : Runtime) where
  open rt use {
    of_int, to_int, mul, div, round, sprint_typed, parse_milli, format_milli, parse_duration,
    format_duration,
  }

  unfoldable pub enum_key : Json → String
  enum_key (str t) = append "s:" t
  enum_key (bool t) = append "b:" (format_bool t)
  enum_key (num (int64 t)) = append "n:" (format_int t)
  enum_key (num (int t)) = append "n:" (format_int t)
  enum_key (num (int32 t)) = append "n:" (format_int t)
  enum_key (num (float64 f)) = append "n:" (format_number rt f)
  enum_key v = append "x:" (sprint_typed v)

  abbrev pub mapped_value :
      FieldPath → UnknownKeyPolicy → Json → Context → Option Json → Result Context
  mapped_value path on_unmapped v ctx (some mapped) = write ctx path mapped
  mapped_value path on_unmapped v ctx none =
      if is_error on_unmapped then err (unmapped_value v path) else ok ctx

  unfoldable pub apply_remap_enum :
      FieldPath → Map Json → UnknownKeyPolicy → Context → Result Context
  apply_remap_enum path table on_unmapped ctx =
      if_found ctx (get_value ctx.input path)
        λ v. mapped_value path on_unmapped v ctx (lookup (enum_key v) table)

  unfoldable pub apply_coerce :
      FieldPath → FieldKind → FractionalIntegerPolicy → Context → Result Context
  apply_coerce path to_kind frac ctx = if_found ctx (get_value ctx.input path) λ v. do
    coerced ←
        map_err (at_field "typeCoerce" path) (coerce_scalar_value_with_policy rt v to_kind frac)
    write ctx path coerced

  unfoldable pub apply_numeric_scale :
      FieldPath → FieldPath → Float64 → Bool → Bool → Context → Result Context
  apply_numeric_scale from_path to_path factor multiply rounds ctx =
      if_found ctx (get_value ctx.input from_path) λ v. do
        f ← or_fail (not_numeric "numericScale" from_path) (as_float64 rt v)
        let result = if multiply then mul f factor else div f factor
        write ctx to_path (num (float64 (if rounds then round result else result)))

  -- The loop of `joinListOp` from element `i`.
  unfoldable pub join_parts : ℕ → List Json → Result (List String)
  join_parts i [] = ok []
  join_parts i (elem ∷ elems) = do
    s ← map_err (at_element "listJoin" i) (coerce_scalar_value rt elem FieldKind.string)
    text ← or_fail (at_element "listJoin" i (not_a_string "listJoin" [])) (as_string s)
    rest ← join_parts (suc i) elems
    ok (text ∷ rest)

  unfoldable pub apply_join_list : FieldPath → FieldPath → String → Context → Result Context
  unfolding join_parts
  apply_join_list array_path string_path separator ctx =
      if_found ctx (get_value ctx.input array_path) λ v. do
        elems ← or_fail (not_an_array "listJoin" array_path) (as_array v)
        parts ← join_parts 0 elems
        write ctx string_path (str (join parts separator))

  -- The loop of `splitListOp` from element `i`.
  unfoldable pub coerce_parts : FieldKind → ℕ → List String → Result (List Json)
  coerce_parts item_kind i [] = ok []
  coerce_parts item_kind i (p ∷ parts) = do
    coerced ← map_err (at_element "listSplit" i) (coerce_scalar_value rt (str p) item_kind)
    rest ← coerce_parts item_kind (suc i) parts
    ok (coerced ∷ rest)

  unfoldable pub apply_split_list :
      FieldPath → FieldPath → String → FieldKind → Context → Result Context
  unfolding coerce_parts
  apply_split_list string_path array_path separator item_kind ctx =
      if_found ctx (get_value ctx.input string_path) λ v. do
        s ← or_fail (not_a_string "listSplit" string_path) (as_string v)
        out ← coerce_parts item_kind 0 (if s == "" then [] else split s separator)
        write ctx array_path (array out)

  unfoldable pub apply_quantity : FieldPath → FieldPath → Bool → Context → Result Context
  apply_quantity src dst true ctx = if_found ctx (get_value ctx.input src) λ v. do
    s ← or_fail (not_a_string "quantity" src) (as_string v)
    q ← or_fail (library "quantity: parse") (parse_milli s)
    write ctx dst (num (float64 (of_int q)))
  apply_quantity src dst false ctx = if_found ctx (get_value ctx.input src) λ v. do
    f ← or_fail (not_numeric "quantity" src) (as_float64 rt v)
    write ctx dst (str (format_milli (to_int f)))

  unfoldable pub apply_duration : FieldPath → FieldPath → Bool → Context → Result Context
  apply_duration src dst true ctx = if_found ctx (get_value ctx.input src) λ v. do
    s ← or_fail (not_a_string "duration" src) (as_string v)
    d ← or_fail (library "duration: parse") (parse_duration s)
    if divides_ℕ second d
        then write ctx dst (num (float64 (of_int (div_ℕ d second))))
        else err (not_whole_seconds s)
  apply_duration src dst false ctx = if_found ctx (get_value ctx.input src) λ v. do
    f ← or_fail (not_numeric "duration" src) (as_float64 rt v)
    write ctx dst (str (format_duration (mul64 (to_int f) second)))
