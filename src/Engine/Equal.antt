-- ===== src/Engine/Equal.antt =====
-- pkg/engine/ops.go: equality of decoded values, up to the numeric type that a decoder chose.
use declarative_conversion_o.Prelude.{
  Bool, true, false, ◌&&◌, Option, none, some, ◌==◌, length, nat_eq,
}
use mathlib.Core.Option
use declarative_conversion_o.Prelude.Int.{ℤ, eq_ℤ}
use declarative_conversion_o.Prelude.Assoc.{lookup}
use declarative_conversion_o.Engine.Json.{
  Json, null, bool, str, num, arr, obj, Items, nil, cons, Fields, end, field, fields, Object,
  Number, float64, int64, int, int32,
}
use declarative_conversion_o.Engine.Runtime.{Runtime}
use declarative_conversion_o.Engine.Coerce.{as_float64}

unfoldable pub as_int64 : Json → Option ℤ
as_int64 (num (int64 t)) = some t
as_int64 (num (int t)) = some t
as_int64 (num (int32 t)) = some t
as_int64 _ = none

bool_eq : Bool → Bool → Bool
bool_eq true b = b
bool_eq false true = false
bool_eq false false = true

-- Both values read as `A`: the test on them.
abbrev both : {A : Type 0} → (A → A → Bool) → Option A → Option A → Option Bool
both test (some a) (some b) = some (test a b)
both test _ _ = none

abbrev or_else : Option Bool → Bool → Bool
or_else (some b) c = b
or_else none c = c

module _ (rt : Runtime) where
  number_eq : Number → Number → Bool
  number_eq (float64 f) (float64 g) = rt.float_eq f g
  number_eq (int64 a) (int64 b) = eq_ℤ a b
  number_eq (int a) (int b) = eq_ℤ a b
  number_eq (int32 a) (int32 b) = eq_ℤ a b
  number_eq _ _ = false

  -- reflect.DeepEqual on decoded values
  unfoldable mutual
    unfolding bool_eq number_eq

    pub deep_equal : Json → Json → Bool
    deep_equal null null = true
    deep_equal (bool a) (bool b) = bool_eq a b
    deep_equal (str s) (str t) = s == t
    deep_equal (num a) (num b) = number_eq a b
    deep_equal (arr vs) (arr ws) = deep_equal_items vs ws
    deep_equal (obj fs) (obj gs) =
        nat_eq (length (fields fs)) (length (fields gs)) && deep_equal_fields fs (fields gs)
    deep_equal _ _ = false

    pub deep_equal_items : Items → Items → Bool
    deep_equal_items nil nil = true
    deep_equal_items (cons v vs) (cons w ws) = deep_equal v w && deep_equal_items vs ws
    deep_equal_items _ _ = false

    pub deep_equal_fields : Fields → Object → Bool
    deep_equal_fields end m = true
    deep_equal_fields (field k v fs) m =
        or_else (Option.map (deep_equal v) (lookup k m)) false && deep_equal_fields fs m

  unfoldable pub json_values_equal : Json → Json → Bool
  unfolding as_int64
  json_values_equal a b =
      or_else (both eq_ℤ (as_int64 a) (as_int64 b))
        (or_else (both rt.float_eq (as_float64 rt a) (as_float64 rt b)) (deep_equal a b))
