-- ===== src/Examples.antt =====
-- The theorems at concrete inputs, and the fixtures that they share.
pub mod Paths
pub mod Operations
pub mod Conversions
pub mod Assignments
pub mod Compiling
pub mod Requiring
pub mod Serving
pub mod Rollouts
use declarative_conversion_o.Prelude.{
  ◌≢◌, ◌==◌, eq_iff, ℕ, String, ◌≡◌, sym, refl, true, false, Option, none, some, List, [], ◌∷◌,
  nat_eq, ltb,
}
use declarative_conversion_o.Prelude.Int.{ℤ, pos, pos_part}
use declarative_conversion_o.Engine.Json.{Json, str, Float64, bits, Object, object}
use declarative_conversion_o.Engine.Runtime.{Runtime}
use declarative_conversion_o.Engine.Op.{Context}

-- Texts that differ.
pub differ : (s t : String) → (s == t) ≡ false → s ≢ t
differ s t ne e = cc (sym ne, (eq_iff s t).1 e)

abbrev value : Float64 → ℕ
value (bits n) = n

-- Whole floats, and libraries that refuse everything.
abbrev pub rt : Runtime
rt = record {
  of_int = λ n. bits (pos_part n);
  to_int = λ f. pos (value f);
  trunc = λ f. f;
  round = λ f. f;
  mul = λ f g. f;
  div = λ f g. f;
  float_eq = λ f g. nat_eq (value f) (value g);
  is_nan = λ f. false;
  is_inf = λ f. false;
  abs_below_1e15 = λ f. true;
  format_float = λ f. "";
  parse_float = λ s. none;
  sprint_typed = λ v. "";
  marshal = λ v. some "{}";
  unmarshal = λ s. none;
  is_qualified_name = λ s. true;
  is_valid_label_value = λ s. true;
  parse_milli = λ s. none;
  format_milli = λ n. "";
  parse_duration = λ s. none;
  format_duration = λ n. "";
  compile_regexp = λ s. none;
  parse_template = λ s. none;
  compile_cel = λ s. none;
  decode_patch = λ s. none;
}

abbrev pub context : Object → Object → Context
context input output = record { input = input; output = output; input_json = none }
