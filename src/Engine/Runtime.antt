-- ===== src/Engine/Runtime.antt =====
-- What pkg/engine takes from outside src/: float64 arithmetic and its text forms, encoding/json,
-- regexp, text/template, time, and the Kubernetes, JSON Patch and CEL libraries.
use declarative_conversion_o.Prelude.{String, Bool, Option, List}
use declarative_conversion_o.Prelude.Int.{ℤ}
use declarative_conversion_o.Prelude.Assoc.{Map}
use declarative_conversion_o.Engine.Json.{Json, Float64, Object}

-- regexp.Regexp: FindStringSubmatch, SubexpNames and String.
pub record Regexp : Type 0 where
  pub find_submatch : String → Option (List String)
  pub names : List String
  pub source : String

-- template.Template, executed with `missingkey=error`.
pub record Template : Type 0 where
  pub execute : Map Json → Option String

-- jsonpatch.Patch, from document to document.
pub record Patch : Type 0 where
  pub apply : String → Option String

-- cel.Program, evaluated with `object` bound to the source.
pub record Program : Type 0 where
  pub eval : Object → Option Json

pub record Runtime : Type 0 where
  pub of_int : ℤ → Float64
  pub to_int : Float64 → ℤ
  pub trunc : Float64 → Float64
  pub round : Float64 → Float64
  pub mul : Float64 → Float64 → Float64
  pub div : Float64 → Float64 → Float64
  pub float_eq : Float64 → Float64 → Bool
  pub is_nan : Float64 → Bool
  pub is_inf : Float64 → Bool
  -- math.Abs(f) < 1e15
  pub abs_below_1e15 : Float64 → Bool
  -- strconv.FormatFloat(f, 'f', -1, 64) and strconv.ParseFloat(s, 64)
  pub format_float : Float64 → String
  pub parse_float : String → Option Float64
  -- fmt.Sprintf("%T:%v", v, v)
  pub sprint_typed : Json → String
  pub marshal : Json → Option String
  pub unmarshal : String → Option Json
  pub is_qualified_name : String → Bool
  pub is_valid_label_value : String → Bool
  -- resource.ParseQuantity(s).MilliValue() and resource.NewMilliQuantity(n, DecimalSI).String()
  pub parse_milli : String → Option ℤ
  pub format_milli : ℤ → String
  -- time.ParseDuration and Duration.String, in nanoseconds
  pub parse_duration : String → Option ℤ
  pub format_duration : ℤ → String
  pub compile_regexp : String → Option Regexp
  pub parse_template : String → Option Template
  pub compile_cel : String → Option Program
  -- jsonpatch.DecodePatch
  pub decode_patch : String → Option Patch
