-- ===== src/Engine/Ops/RoundTrip.antt =====
-- Operations that undo one another, each half in a conversion of its own.
use declarative_conversion_o.Prelude.{String, ◌≡◌, refl, ap, Option, some, eq_refl}
use declarative_conversion_o.Prelude.Result.{ok, bind-eq-ok, ok-injective}
use declarative_conversion_o.Prelude.Assoc.{lookup-insert}
use declarative_conversion_o.Engine.Json.{
  Json, null, bool, str, num, arr, obj, Items, nil, cons, Fields, end, field, Object,
  as_object-object, as_array-array,
}
use declarative_conversion_o.Engine.Failure.{FieldPath}
use declarative_conversion_o.Engine.Path.{
  get_value, set_value, deep_copy_value, copy_items, copy_fields,
}
use declarative_conversion_o.Engine.Path.Access.{get_value-set_value}
use declarative_conversion_o.Engine.Runtime.{Runtime}
use declarative_conversion_o.Engine.Op
use declarative_conversion_o.Engine.Op.{Context, write}
use declarative_conversion_o.Engine.Ops.Fields.{
  if_found, apply_rename, apply_wrap_scalar, apply_unwrap_scalar, apply_array_first_to_object,
  apply_object_to_singleton_array,
}
use declarative_conversion_o.Engine.Ops.Apply.{apply}

mutual
  unfolding deep_copy_value

  pub copy_lem : (v : Json) → deep_copy_value v ≡ v
  copy_lem null = refl
  copy_lem (bool b) = refl
  copy_lem (str s) = refl
  copy_lem (num n) = refl
  copy_lem (arr vs) = ap arr (copy_items_lem vs)
  copy_lem (obj fs) = ap obj (copy_fields_lem fs)

  copy_items_lem : (vs : Items) → copy_items vs ≡ vs
  copy_items_lem nil = refl
  copy_items_lem (cons v vs) = cc (copy_lem v, copy_items_lem vs)

  copy_fields_lem : (fs : Fields) → copy_fields fs ≡ fs
  copy_fields_lem end = refl
  copy_fields_lem (field k v fs) = cc (copy_lem v, copy_fields_lem fs)

-- What an operation wrote is in its output.
pub get_value-write :
    (ctx : Context) (path : FieldPath) (v : Json) {ctx' : Context}
    → write ctx path v ≡ ok ctx'
    → get_value ctx'.output path ≡ some v
unfolding write
get_value-write ctx path v h =
    let (out, written, same) = bind-eq-ok (set_value ctx.output path v) _ h in
    rw (← ok-injective same) (get_value-set_value path ctx.output v written)

get_value-write_found :
    (ctx : Context) (path : FieldPath) (o : Option Json) (v : Json) {ctx' : Context}
    → if_found ctx o (λ w. write ctx path (deep_copy_value w)) ≡ ok ctx'
    → o ≡ some v
    → get_value ctx'.output path ≡ some v
get_value-write_found ctx path o v h found = get_value-write ctx path v (rw (found, copy_lem) at h)

module _ (rt : Runtime) where
  -- A field that FieldRename moves and moves back has the value that it had.
  pub rename_back :
      (from to : FieldPath) (c₁ c₂ : Context) (v : Json) {d₁ d₂ : Context}
      → get_value c₁.input from ≡ some v
      → apply rt (Op.rename from to) c₁ ≡ ok d₁
      → c₂.input ≡ d₁.output
      → apply rt (Op.rename to from) c₂ ≡ ok d₂
      → get_value d₂.output from ≡ some v
  unfolding apply apply_rename
  rename_back from to c₁ c₂ v found there link back =
      let moved = get_value-write_found c₁ to _ v there found in
      get_value-write_found c₂ from _ v back (rw link moved)

  -- A scalar that is wrapped under a key of an object, beside any defaults, and unwrapped from it
  -- again has the value that it had.
  pub wrap_unwrap :
      (scalar_path object_path : FieldPath) (key : String) (defaults : Object) (c₁ c₂ : Context)
      (v : Json) {d₁ d₂ : Context}
      → get_value c₁.input scalar_path ≡ some v
      → apply rt (Op.wrap_scalar scalar_path object_path key defaults) c₁ ≡ ok d₁
      → c₂.input ≡ d₁.output
      → apply rt (Op.unwrap_scalar object_path scalar_path key) c₂ ≡ ok d₂
      → get_value d₂.output scalar_path ≡ some v
  unfolding apply apply_wrap_scalar apply_unwrap_scalar
  wrap_unwrap scalar_path object_path key defaults c₁ c₂ v found there link back =
      let wrapped = get_value-write c₁ object_path _ (rw (found, copy_lem) at there) in
      let inside = rw (← link) at wrapped in
      get_value-write_found c₂ scalar_path (some v) v
        (rw (inside, as_object-object, lookup-insert, eq_refl) at back) refl

  -- An object that is made the only element of an array and taken out of it again is the object
  -- that it was.
  pub singleton_first :
      (object_path array_path : FieldPath) (c₁ c₂ : Context) (v : Json) {d₁ d₂ : Context}
      → get_value c₁.input object_path ≡ some v
      → apply rt (Op.object_to_singleton_array object_path array_path) c₁ ≡ ok d₁
      → c₂.input ≡ d₁.output
      → apply rt (Op.array_first_to_object array_path object_path) c₂ ≡ ok d₂
      → get_value d₂.output object_path ≡ some v
  unfolding apply apply_object_to_singleton_array apply_array_first_to_object
  singleton_first object_path array_path c₁ c₂ v found there link back =
      let wrapped = get_value-write c₁ array_path _ (rw (found, copy_lem) at there) in
      let inside = rw (← link) at wrapped in
      get_value-write_found c₂ object_path (some v) v (rw (inside, as_array-array) at back) refl
