-- ===== src/Engine/Coerce.antt =====
-- pkg/engine/coerce.go: scalars from one JSON type to another.
use Prim.Native.Char.{code}
use declarative_conversion_o.Prelude.{
  ℕ, String, Bool, true, false, not, ◌&&◌, ◌||◌, Option, none, some, ◌==◌, nat_eq, leb,
  if◌then◌else◌,
}
use declarative_conversion_o.Prelude.Int.{pos}
use declarative_conversion_o.Prelude.Text.{format_int, format_bool}
use declarative_conversion_o.Prelude.Result.{ok, err, ◌>>=◌}
use declarative_conversion_o.Engine.Json.{
  Json, bool, str, num, Number, float64, int64, int, int32, Float64,
}
use declarative_conversion_o.Engine.Failure.{
  Result, cannot_coerce, bad_target_kind, fractional, non_finite,
}
use declarative_conversion_o.Engine.Kind.{
  FieldKind, FractionalIntegerPolicy, normalize_fractional_policy,
}
use declarative_conversion_o.Engine.Runtime.{Runtime}

-- unicode.IsSpace
is_space : ℕ → Bool
is_space c =
    (leb 9 c && leb c 13)
    || nat_eq c 32
    || nat_eq c 0x85
    || nat_eq c 0xa0
    || nat_eq c 0x1680
    || (leb 0x2000 c && leb c 0x200a)
    || nat_eq c 0x2028
    || nat_eq c 0x2029
    || nat_eq c 0x202f
    || nat_eq c 0x205f
    || nat_eq c 0x3000

trim_left : String → String
trim_left String.[] = ""
trim_left (String.◌∷◌ c s) =
    let rest = trim_left s in if is_space (code c) then rest else String.◌∷◌ c s

trim_right : String → String
trim_right String.[] = ""
trim_right (String.◌∷◌ c s) =
    let rest = trim_right s in if is_space (code c) && rest == "" then "" else String.◌∷◌ c rest

-- strings.TrimSpace
unfoldable pub trim_space : String → String
unfolding trim_left trim_right is_space
trim_space s = trim_right (trim_left s)

-- strconv.ParseBool
unfoldable pub parse_bool : String → Option Bool
parse_bool s =
    if s == "1" || s == "t" || s == "T" || s == "true" || s == "TRUE" || s == "True"
    then some true
    else if s == "0" || s == "f" || s == "F" || s == "false" || s == "FALSE" || s == "False"
    then some false
    else none

module _ (rt : Runtime) where
  open rt use {
    of_int, to_int, trunc, round, float_eq, is_nan, is_inf, abs_below_1e15, format_float,
    parse_float,
  }

  unfoldable pub number_as_float64 : Number → Float64
  number_as_float64 (float64 f) = f
  number_as_float64 (int64 n) = of_int n
  number_as_float64 (int n) = of_int n
  number_as_float64 (int32 n) = of_int n

  unfoldable pub as_float64 : Json → Option Float64
  unfolding number_as_float64
  as_float64 (num n) = some (number_as_float64 n)
  as_float64 _ = none

  unfoldable pub format_number : Float64 → String
  format_number f =
      if float_eq f (trunc f) && not (is_inf f) && abs_below_1e15 f
      then format_int (to_int f)
      else format_float f

  unfoldable pub reject_non_finite : Float64 → Result Float64
  reject_non_finite f = if is_nan f || is_inf f then err (non_finite (float64 f)) else ok f

  parse_number : String → Option Float64 → Result Float64
  parse_number t none = err (cannot_coerce (str t) "number")
  parse_number t (some f) = reject_non_finite f

  unfoldable pub numeric_as_float64 : Json → Result Float64
  unfolding reject_non_finite number_as_float64 parse_number
  numeric_as_float64 (num n) = reject_non_finite (number_as_float64 n)
  numeric_as_float64 (str t) = parse_number t (parse_float (trim_space t))
  numeric_as_float64 (bool b) = ok (if b then of_int (pos 1) else of_int (pos 0))
  numeric_as_float64 v = err (cannot_coerce v "number")

  on_fractional : FractionalIntegerPolicy → Float64 → Result Float64
  on_fractional FractionalIntegerPolicy.truncate f = ok (trunc f)
  on_fractional FractionalIntegerPolicy.round f = ok (round f)
  on_fractional _ f = err (fractional (float64 f))

  unfoldable pub apply_fractional_integer : Float64 → FractionalIntegerPolicy → Result Float64
  unfolding on_fractional
  apply_fractional_integer f frac = if float_eq f (trunc f) then ok f else on_fractional frac f

  coerce_to_string : Json → Result Json
  unfolding format_number
  coerce_to_string (str t) = ok (str t)
  coerce_to_string (bool b) = ok (str (format_bool b))
  coerce_to_string (num (int64 n)) = ok (str (format_int n))
  coerce_to_string (num (int n)) = ok (str (format_int n))
  coerce_to_string (num (int32 n)) = ok (str (format_int n))
  coerce_to_string (num (float64 f)) = ok (str (format_number f))
  coerce_to_string v = err (cannot_coerce v "string")

  parsed_bool : String → Option Bool → Result Json
  parsed_bool t none = err (cannot_coerce (str t) "boolean")
  parsed_bool t (some b) = ok (bool b)

  coerce_to_boolean : Json → Result Json
  unfolding parsed_bool
  coerce_to_boolean (bool b) = ok (bool b)
  coerce_to_boolean (str t) = parsed_bool t (parse_bool (trim_space t))
  coerce_to_boolean v = err (cannot_coerce v "boolean")

  unfoldable pub coerce_scalar_value_with_policy :
      Json → FieldKind → FractionalIntegerPolicy → Result Json
  unfolding coerce_to_string coerce_to_boolean
  coerce_scalar_value_with_policy v FieldKind.string frac = coerce_to_string v
  coerce_scalar_value_with_policy v FieldKind.integer frac = do
    f ← numeric_as_float64 v
    n ← apply_fractional_integer f (normalize_fractional_policy frac)
    ok (num (float64 n))
  coerce_scalar_value_with_policy v FieldKind.number frac = do
    f ← numeric_as_float64 v
    ok (num (float64 f))
  coerce_scalar_value_with_policy v FieldKind.boolean frac = coerce_to_boolean v
  coerce_scalar_value_with_policy v _ frac = err bad_target_kind

  unfoldable pub coerce_scalar_value : Json → FieldKind → Result Json
  unfolding coerce_scalar_value_with_policy
  coerce_scalar_value v to = coerce_scalar_value_with_policy v to FractionalIntegerPolicy.error
