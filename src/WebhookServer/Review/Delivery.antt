-- ===== src/WebhookServer/Review/Delivery.antt =====
-- internal/webhookserver/server.go: what a ConversionReview delivers.
use declarative_conversion_o.Prelude.{
  ◌≢◌, ◌⊎◌, ℕ, ◌+◌, String, ◌≡◌, ◌↔◌, refl, Bool, true, false, Option, none, some, List, [], ◌∷◌,
  ◌++◌, inl, inr, Bool-cases, Option-cases, ◌==◌, eq_iff, if◌then◌else◌,
}
use declarative_conversion_o.Prelude.Assoc.{lookup, lookup-insert}
use declarative_conversion_o.Prelude.Result.{Result, ok, err, bind-eq-ok}
use declarative_conversion_o.Engine.Json.{Json, null, bool, str, num, arr, obj, Object, object}
use declarative_conversion_o.Engine.Runtime.{Runtime}
use declarative_conversion_o.Engine.Convert.{Router}
use declarative_conversion_o.Engine.Convert.Metadata.{IsAbsent, KeptOrEmpty, kept, empty}
use declarative_conversion_o.WebhookServer.Registry.{Registry, router_for, get}
use declarative_conversion_o.WebhookServer.Review.{
  Reply, ReviewError, Request, delivered, Hop, review, present, ensure_converted_metadata,
  convert_object, convert_objects, answer, with_router, handle_convert,
}

module _ (rt : Runtime) (router : Router) (desired : String) where
  -- Each object is converted, in its place, and their hops are put together.
  pub data Delivered : List String → List String → List Hop → Type 0 where
    nothing : Delivered [] [] []
    object_and :
        {raw out : String} {raws outs : List String} {hops more : List Hop}
        → convert_object rt router desired raw ≡ ok (out, hops)
        → Delivered raws outs more
        → Delivered (raw ∷ raws) (out ∷ outs) (hops ++ more)

module _ (rt : Runtime) (router : Router) (desired : String) (expired : ℕ → Bool) where
  Delivered-convert_objects :
      (n : ℕ) (raws : List String) {outs : List String} {hops : List Hop}
      → convert_objects rt router desired expired n raws ≡ ok (outs, hops)
      → Delivered rt router desired raws outs hops
  unfolding convert_objects
  Delivered-convert_objects n [] {outs} {hops} h = elim (Bool-cases (expired n)) [
    | inl e ↦ cc (rw e at h)
    | inr e ↦
        let same = rw e at h in
        let no_outs : outs ≡ [] = cc in
        let no_hops : hops ≡ [] = cc in rw (no_outs, no_hops) nothing
  ]
  Delivered-convert_objects n (raw ∷ raws) {outs} {hops} h = elim (Bool-cases (expired n)) [
    | inl e ↦ cc (rw e at h)
    | inr e ↦
        let ((out, own), one, more) =
          bind-eq-ok (convert_object rt router desired raw) _ (rw e at h) in
        let ((rest, others), tail, last) =
          bind-eq-ok (convert_objects rt router desired expired (n + 1) raws) _ more in
        let outs_are : outs ≡ out ∷ rest = cc in
        let hops_are : hops ≡ own ++ others = cc in
        rw (outs_are, hops_are) (object_and one (Delivered-convert_objects (n + 1) raws tail))
  ]

  convert_objects-Delivered :
      ((k : ℕ) → expired k ≡ false)
      → (n : ℕ) {raws outs : List String} {hops : List Hop}
      → Delivered rt router desired raws outs hops
      → convert_objects rt router desired expired n raws ≡ ok (outs, hops)
  unfolding convert_objects
  convert_objects-Delivered never n nothing = rw (never n) refl
  convert_objects-Delivered never n (object_and one more) =
      rw (never n, one, convert_objects-Delivered never (n + 1) more) refl

answer-delivered :
    (rt : Runtime) (req : Request) (r : Result ReviewError (List String × List Hop))
    {outs : List String} {hops : List Hop}
    → answer rt req r ≡ (delivered req.uid outs, hops)
    → r ≡ ok (outs, hops)
answer-delivered rt req (ok (converted, own)) h = cc
answer-delivered rt req (err e) h = cc

-- A reply is a delivery, or counts no hop.
abbrev pub CountedOnlyIfDelivered : String → Reply × List Hop → Type 0
CountedOnlyIfDelivered uid r = ((outs : List String) × (r.0 ≡ delivered uid outs)) ⊎ (r.1 ≡ [])

answer-CountedOnlyIfDelivered :
    (rt : Runtime) (req : Request) (r : Result ReviewError (List String × List Hop))
    → CountedOnlyIfDelivered req.uid (answer rt req r)
answer-CountedOnlyIfDelivered rt req (ok (converted, own)) = inl (converted, refl)
answer-CountedOnlyIfDelivered rt req (err e) = inr refl

module _ (rt : Runtime) (registry : Registry) (target : String) (expired : ℕ → Bool) (req : Request)
    (router : Router) (served : router_for registry target ≡ some router) where
  -- A target that is served has an entry with a router.
  served_reply :
      handle_convert rt registry target true expired (review (some req))
      ≡ with_router rt target req expired (some router)
  unfolding handle_convert router_for
  served_reply = elim (Option-cases (get registry target)) [
    | inl e ↦ cc (rw e at served)
    | inr (none, e) ↦ cc (rw e at served)
    | inr (some entry, e) ↦ rw (e, rw e at served) refl
  ]

  -- A request for a target that is served, within its budget of time, is answered with a list of
  -- objects exactly if every object converts, and then with their conversions in order, under the
  -- UID of the request; hops are counted for such an answer only.
  pub handle_convert_iff :
      {outs : List String} {hops : List Hop}
      → ((k : ℕ) → expired k ≡ false)
      → ((handle_convert rt registry target true expired (review (some req))
            ≡ (delivered req.uid outs, hops))
          ↔ Delivered rt router req.desired_api_version req.objects outs hops)
        × CountedOnlyIfDelivered req.uid
            (handle_convert rt registry target true expired (review (some req)))
  handle_convert_iff {outs} {hops} never = (
    (
      λ h.
          Delivered-convert_objects rt router req.desired_api_version expired 0 req.objects
            (answer-delivered rt req _ (rw served_reply at h)),
      λ d.
          rw
            (
              served_reply,
              convert_objects-Delivered rt router req.desired_api_version expired never 0 d,
            )
            refl,
    ),
    rw served_reply (answer-CountedOnlyIfDelivered rt req _),
  )

-- The metadata that goes out: the converted one, or else the one that came in, or else an empty map.
pub data Metadata : Option Json → Option Json → Json → Type 0 where
  converted : {original : Option Json} (v : Json) → v ≢ null → Metadata (some v) original v
  or_original :
      {out original : Option Json} {v : Json}
      → IsAbsent out
      → KeptOrEmpty original v
      → Metadata out original v

-- A field is absent, or holds a value that is not null.
present_cases :
    (o : Option Json)
    → (IsAbsent o × (present o ≡ none))
      ⊎ ((v : Json) × (o ≡ some v) × (v ≢ null) × (present o ≡ some v))
present_cases none = inl (inl refl, refl)
present_cases (some null) = inl (inr refl, refl)
present_cases (some (bool b)) = inr (bool b, refl, λ e. cc e, refl)
present_cases (some (str s)) = inr (str s, refl, λ e. cc e, refl)
present_cases (some (num n)) = inr (num n, refl, λ e. cc e, refl)
present_cases (some (arr vs)) = inr (arr vs, refl, λ e. cc e, refl)
present_cases (some (obj fs)) = inr (obj fs, refl, λ e. cc e, refl)

-- What goes out has a metadata that is not null, whatever a plan leaves of it: the converted one
-- where that is neither missing nor null, otherwise the one of the object that came in, and an
-- empty map where that is missing or null too; every other field stays as it is.
pub ensure_converted_metadata_lem :
    (out original : Object) (key : String)
    → (md : Json) × Metadata (lookup "metadata" out) (lookup "metadata" original) md
      × (lookup key (ensure_converted_metadata out original)
          ≡ (if "metadata" == key then some md else lookup key out))
unfolding ensure_converted_metadata
ensure_converted_metadata_lem out original key = elim (present_cases (lookup "metadata" out)) [
  | inr (md, e, ne, p) ↦ (
    md,
    rw e (converted md ne),
    rw p (elim (Bool-cases ("metadata" == key)) [
      | inl k ↦ rw (k, ← (eq_iff "metadata" key).0 k) e
      | inr k ↦ rw k refl
    ]),
  )
  | inl (absent, p) ↦ elim (present_cases (lookup "metadata" original)) [
    | inr (md, e, ne, q) ↦ (
      md,
      or_original absent (rw e (kept md ne)),
      rw (p, q) (lookup-insert "metadata" key md out),
    )
    | inl (missing, q) ↦ (
      object [],
      or_original absent (empty missing),
      rw (p, q) (lookup-insert "metadata" key (object []) out),
    )
  ]
]
