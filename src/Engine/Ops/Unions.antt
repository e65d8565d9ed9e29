-- ===== src/Engine/Ops/Unions.antt =====
-- pkg/engine/ops.go: branchMap converts a union that has exactly one branch set.
use declarative_conversion_o.Prelude.Assoc.{lookup}
use declarative_conversion_o.Prelude.{
  ℕ, ◌+◌, sym, ap, ◌∙◌, length, arith, is_some, Option-cases, inl, inr, if◌then◌else◌, String, ◌≡◌,
  refl, some, List, [], ◌∷◌,
}
use declarative_conversion_o.Prelude.Result.{ok}
use declarative_conversion_o.Engine.Json.{Object, object, as_object-object}
use declarative_conversion_o.Engine.Failure.{FieldPath}
use declarative_conversion_o.Engine.Path.{get_value}
use declarative_conversion_o.Engine.Runtime.{Runtime}
use declarative_conversion_o.Engine.Op
use declarative_conversion_o.Engine.Op.{Context}
use declarative_conversion_o.Engine.Ops.Apply.{
  Active, apply_active, active_branches, branch_names, apply,
}

apply_active-one :
    (src dst : FieldPath) (discriminator : String) (names : List String) (ctx : Context)
    (active : List Active) {d : Context}
    → apply_active src dst discriminator names ctx active ≡ ok d
    → (b : Active) × (active ≡ b ∷ [])
unfolding apply_active
apply_active-one src dst discriminator names ctx [] h = cc h
apply_active-one src dst discriminator names ctx (b ∷ []) h = (b, refl)
apply_active-one src dst discriminator names ctx (b ∷ c ∷ more) h = cc h

-- How many of the branches have their key in the union.
abbrev pub branches_set : Op.Branches → Object → ℕ
branches_set Op.no_branches m = 0
branches_set (Op.branch src dst disc nested bs) m =
    (if is_some (lookup src m) then 1 else 0) + branches_set bs m

module _ (rt : Runtime) where
  length-active_branches :
      (branches : Op.Branches) (m : Object)
      → length (active_branches rt branches m) ≡ branches_set branches m
  unfolding active_branches
  length-active_branches Op.no_branches m = refl
  length-active_branches (Op.branch src dst disc nested bs) m = elim (Option-cases (lookup src m)) [
    | inl e ↦ rw e (omega (arith, length-active_branches bs m))
    | inr (v, e) ↦ rw e (omega (arith, length-active_branches bs m))
  ]

  -- A branchMap that succeeds on a union finds the key of exactly one of its branches there.
  pub branch_map-one :
      (src dst : FieldPath) (discriminator : String) (branches : Op.Branches) (m : Object)
      (ctx : Context) {d : Context}
      → get_value ctx.input src ≡ some (object m)
      → apply rt (Op.branch_map src dst discriminator branches) ctx ≡ ok d
      → branches_set branches m ≡ 1
  unfolding apply
  branch_map-one src dst discriminator branches m ctx found h =
      let (b, one) =
        apply_active-one src dst discriminator (branch_names branches) ctx
          (active_branches rt branches m) (rw (found, as_object-object) at h) in
      sym (length-active_branches branches m) ∙ ap length one
