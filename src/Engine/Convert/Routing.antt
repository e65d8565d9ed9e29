-- ===== src/Engine/Convert/Routing.antt =====
-- pkg/engine/convert.go: which plans a conversion between two versions runs, and in which order.
use declarative_conversion_o.Prelude.{
  String, ◌≡◌, ◌≢◌, refl, sym, ◌⊎◌, ◌↔◌, if◌then◌else◌, Option, some, ◌==◌, eq_refl, eq_iff,
  Bool-cases, Option-cases, inl, inr, true, false,
}
use declarative_conversion_o.Prelude.Assoc.{lookup}
use declarative_conversion_o.Prelude.Result.{ok, bind-eq-ok, map_err-eq-ok, ok-injective}
use declarative_conversion_o.Engine.Json.{Object}
use declarative_conversion_o.Engine.Runtime.{Runtime}
use declarative_conversion_o.Engine.Op.{Plan, Direction, hub_to_spoke, spoke_to_hub}
use declarative_conversion_o.Engine.Convert.{Router, convert, run_plan, hop, router_convert}

module _ (rt : Runtime) (r : Router) where
  -- One run of the plan of a spoke.
  pub data Hop : String → String → Object → Object → Type 0 where
    up :
        {v : String} {a b : Object} (plan : Option Plan)
        → lookup v r.plans ≡ some plan
        → convert rt plan spoke_to_hub a ≡ ok b
        → Hop v r.hub a b
    down :
        {v : String} {a b : Object} (plan : Option Plan)
        → lookup v r.plans ≡ some plan
        → convert rt plan hub_to_spoke a ≡ ok b
        → Hop r.hub v a b

  -- The ways from version to version: none, one hop, or two over the hub.
  pub data Route : String → String → Object → Object → Type 0 where
    stay : {v : String} {a : Object} → Route v v a a
    one : {v w : String} {a b : Object} → v ≢ w → Hop v w a b → Route v w a b
    two :
        {v w : String} {a b c : Object}
        → v ≢ w
        → v ≢ r.hub
        → w ≢ r.hub
        → Hop v r.hub a b
        → Hop r.hub w b c
        → Route v w a c

eq_of_true : (s t : String) → (s == t) ≡ true → s ≡ t
eq_of_true s t e = (eq_iff s t).0 e

ne_of_false : (s t : String) → (s == t) ≡ false → s ≢ t
ne_of_false s t e h = cc ((eq_iff s t).1 h)

false_of_ne : (s t : String) → s ≢ t → (s == t) ≡ false
false_of_ne s t ne = elim (Bool-cases (s == t)) [
  | inr e ↦ e
  | inl e ↦ absurd (ne ((eq_iff s t).0 e))
]

module _ (rt : Runtime) (r : Router) where
  -- A hop that succeeds has run the plan of its spoke.
  hop-plan :
      (v : String) (dir : Direction) (a : Object) {b : Object}
      → hop rt r v dir a ≡ ok b
      → (plan : Option Plan) × (lookup v r.plans ≡ some plan) × (convert rt plan dir a ≡ ok b)
  unfolding hop run_plan
  hop-plan v dir a h = elim (Option-cases (lookup v r.plans)) [
    | inl e ↦ cc (rw e at h)
    | inr (plan, e) ↦ (plan, e, map_err-eq-ok _ (convert rt plan dir a) (rw e at h))
  ]

  hop-Up :
      (v : String) (a : Object) {b : Object}
      → hop rt r v spoke_to_hub a ≡ ok b
      → Hop rt r v r.hub a b
  hop-Up v a h = let (plan, e, c) = hop-plan v spoke_to_hub a h in Hop.up plan e c

  hop-Down :
      (v : String) (a : Object) {b : Object}
      → hop rt r v hub_to_spoke a ≡ ok b
      → Hop rt r r.hub v a b
  hop-Down v a h = let (plan, e, c) = hop-plan v hub_to_spoke a h in Hop.down plan e c

  -- The second half of a conversion, once it stands at the hub.
  second_half :
      (from to : String) (a m : Object) {out : Object}
      → from ≢ to
      → ((from ≡ r.hub) × (a ≡ m)) ⊎ ((from ≢ r.hub) × Hop rt r from r.hub a m)
      → (if to == r.hub then ok m else hop rt r to hub_to_spoke m) ≡ ok out
      → Route rt r from to a out
  second_half from to a m ne (inl (f, same)) h = elim (Bool-cases (to == r.hub)) [
    | inl e ↦ absurd (ne (cc (eq_of_true to r.hub e)))
    | inr e ↦ rw (f, same) (Route.one (λ q. ne (cc)) (hop-Down to m (rw e at h)))
  ]
  second_half from to a m ne (inr (away, hopped)) h = elim (Bool-cases (to == r.hub)) [
    | inl e ↦
        let kept = sym (ok-injective (rw e at h)) in
        let there = eq_of_true to r.hub e in rw (there, kept) (Route.one away hopped)
    | inr e ↦ Route.two ne away (ne_of_false to r.hub e) hopped (hop-Down to m (rw e at h))
  ]

  -- A conversion that succeeds has gone one of the ways.
  router_convert-Route :
      (root : Object) (from to : String) {out : Object}
      → router_convert rt r root from to ≡ ok out
      → Route rt r from to root out
  unfolding router_convert
  router_convert-Route root from to h = elim (Bool-cases (from == to)) [
    | inl e ↦
        let kept = sym (ok-injective (rw e at h)) in rw (eq_of_true from to e, kept) Route.stay
    | inr e ↦ elim (Bool-cases (from == r.hub)) [
      | inl f ↦
          second_half from to root root (ne_of_false from to e)
            (inl (eq_of_true from r.hub f, refl)) (rw (e, f) at h)
      | inr f ↦
          let (m, hopped, rest) = bind-eq-ok (hop rt r from spoke_to_hub root) _ (rw (e, f) at h) in
          second_half from to root m (ne_of_false from to e)
            (inr (ne_of_false from r.hub f, hop-Up from root hopped)) rest
    ]
  ]

  plan-hop :
      (v : String) (dir : Direction) (plan : Option Plan) (a : Object) {b : Object}
      → lookup v r.plans ≡ some plan
      → convert rt plan dir a ≡ ok b
      → hop rt r v dir a ≡ ok b
  unfolding hop run_plan
  plan-hop v dir plan a e c = rw (e, c) refl

  -- A way that goes over one hop, as the code takes it.
  Hop-hop :
      {v w : String} {a b : Object}
      → Hop rt r v w a b
      → ((w ≡ r.hub) × (hop rt r v spoke_to_hub a ≡ ok b))
        ⊎ ((v ≡ r.hub) × (hop rt r w hub_to_spoke a ≡ ok b))
  Hop-hop (Hop.up plan e c) = inl (refl, plan-hop _ spoke_to_hub plan _ e c)
  Hop-hop (Hop.down plan e c) = inr (refl, plan-hop _ hub_to_spoke plan _ e c)

  Route-router_convert :
      {v w : String} {a b : Object} → Route rt r v w a b → router_convert rt r a v w ≡ ok b
  unfolding router_convert
  Route-router_convert Route.stay = rw (eq_refl) refl
  Route-router_convert {v = v} {w = w} (Route.one ne h) = elim (Hop-hop h) [
    | inl (e, step) ↦
        rw (false_of_ne v w ne, false_of_ne v r.hub (λ q. ne (cc)), step, e, eq_refl) refl
    | inr (e, step) ↦ rw (false_of_ne v w ne, e, eq_refl, false_of_ne w r.hub (λ q. ne (cc))) step
  ]
  Route-router_convert {v = v} {w = w} (Route.two ne ne₁ ne₂ h k) = elim (Hop-hop h) [
    | inr (e, step) ↦ absurd (ne₁ e)
    | inl (e, step) ↦ elim (Hop-hop k) [
      | inl (e', step') ↦ absurd (ne₂ e')
      | inr (e', step') ↦
          rw (false_of_ne v w ne, false_of_ne v r.hub ne₁, step, false_of_ne w r.hub ne₂) step'
    ]
  ]

  -- The router returns an object exactly if there is a way to it in the step relation: no hop, one
  -- plan between the hub and a spoke, or two plans over the hub.
  pub router_convert_iff :
      (root : Object) (from to : String) {out : Object}
      → (router_convert rt r root from to ≡ ok out) ↔ Route rt r from to root out
  router_convert_iff root from to = (router_convert-Route root from to, Route-router_convert)
