-- ===== src/Engine/Ops/Elements.antt =====
-- pkg/engine/ops.go: what forEach makes of an array, element by element.
use declarative_conversion_o.Prelude.{
  ℕ, suc, ◌≡◌, refl, sym, ap, Option, none, some, List, [], ◌∷◌, inl, inr, nat_eq, length,
  Bool-cases,
}
use declarative_conversion_o.Prelude.Result.{ok, map_err, bind-eq-ok, map_err-eq-ok, ok-injective}
use declarative_conversion_o.Engine.Json.{
  Json, Object, object, array, as_object, as_array, as_array-array,
}
use declarative_conversion_o.Engine.Failure.{
  Failure, FieldPath, Result, at_element, element_not_object,
}
use declarative_conversion_o.Engine.Path.{get_value}
use declarative_conversion_o.Engine.Runtime.{Runtime}
use declarative_conversion_o.Engine.Op
use declarative_conversion_o.Engine.Op.{Context}
use declarative_conversion_o.Engine.Ops.Metadata.{or_fail}
use declarative_conversion_o.Engine.Ops.Apply.{
  nested_context, check_destination, for_each_element, apply_for_each, apply, apply_ops,
}
use declarative_conversion_o.Engine.Ops.RoundTrip.{get_value-write}

-- Each output is the result of the nested operations on the element at its place, in a context
-- of its own.
abbrev pub Each : (Context → Result Context) → List Json → List Json → Type 0
Each run [] [] = Unit
Each run (elem ∷ elems) (out ∷ outs) =
    ((m : Object) × (c : Context) × (as_object elem ≡ some m)
      × (run (nested_context m) ≡ ok c)
      × (out ≡ object c.output))
    × Each run elems outs
Each run _ _ = ⊥

or_fail-eq-ok : {A : Type 0} (e : Failure) (o : Option A) {a : A} → or_fail e o ≡ ok a → o ≡ some a
or_fail-eq-ok e none h = cc h
or_fail-eq-ok e (some a) h = ap some (ok-injective h)

check_destination-same :
    (src dst : FieldPath) (elems : List Json) (o : Option Json) {checked : List Json}
    → check_destination src dst elems o ≡ ok checked
    → checked ≡ elems
unfolding check_destination
check_destination-same src dst elems none h = sym (ok-injective h)
check_destination-same src dst elems (some v) h =
    let (ds, _, rest) = bind-eq-ok (or_fail _ (as_array v)) _ h in
    elim (Bool-cases (nat_eq (length ds) (length elems))) [
      | inl e ↦ sym (ok-injective (rw e at rest))
      | inr e ↦ cc (rw e at rest)
    ]

for_each_element-Each :
    (src : FieldPath) (run : Context → Result Context) (i : ℕ) (elems : List Json)
    {outs : List Json}
    → for_each_element src run i elems ≡ ok outs
    → Each run elems outs
unfolding for_each_element
for_each_element-Each src run i [] h = rw (← ok-injective h) tt
for_each_element-Each src run i (elem ∷ elems) h =
    let (m, is_map, h₁) =
      bind-eq-ok (or_fail (element_not_object "forEach" i src) (as_object elem)) _ h in
    let (c, ran, h₂) =
      bind-eq-ok (map_err (at_element "forEach" i) (run (nested_context m))) _ h₁ in
    let (outs, below, same) = bind-eq-ok (for_each_element src run (suc i) elems) _ h₂ in
    rw (← ok-injective same) (
      (
        m,
        c,
        or_fail-eq-ok _ (as_object elem) is_map,
        map_err-eq-ok _ (run (nested_context m)) ran,
        refl,
      ),
      for_each_element-Each src run (suc i) elems below,
    )

module _ (rt : Runtime) where
  -- A forEach that succeeds on an array writes an array of the same length, in which each element
  -- is the output of the nested operations on the element at its place, run in a context of its
  -- own.
  pub for_each-Each :
      (src dst : FieldPath) (nested : Op.Ops) (elems : List Json) (ctx : Context) {d : Context}
      → get_value ctx.input src ≡ some (array elems)
      → apply rt (Op.for_each src dst nested) ctx ≡ ok d
      → (outs : List Json) × (get_value d.output dst ≡ some (array outs))
        × Each (apply_ops rt nested) elems outs
  unfolding apply apply_for_each
  for_each-Each src dst nested elems ctx found h =
      let run = apply_ops rt nested in
      let h₁ = rw (found, as_array-array) at h in
      let (checked, c, h₂) =
        bind-eq-ok (check_destination src dst elems (get_value ctx.input dst)) _ h₁ in
      let (outs, ran, written) = bind-eq-ok (for_each_element src run 0 checked) _ h₂ in
      (
        outs,
        get_value-write ctx dst (array outs) written,
        rw (← check_destination-same src dst elems (get_value ctx.input dst) c)
            (for_each_element-Each src run 0 checked ran),
      )
