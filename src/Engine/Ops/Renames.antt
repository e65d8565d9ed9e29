-- ===== src/Engine/Ops/Renames.antt =====
-- Renaming the keys of a map, and renaming them back.
use declarative_conversion_o.Prelude.{
  String, ◌≡◌, ◌≢◌, refl, sym, ap, ◌∙◌, false, none, some, [], ◌∷◌, ◌++◌, arith, Option-cases, inl,
  inr, eq_refl, eq_iff, ◌==◌, All,
}
use mathlib.Core.List.{append_assoc, append-nil}
use declarative_conversion_o.Prelude.Result.{ok, ok-injective}
use declarative_conversion_o.Prelude.Assoc.{Map, lookup, insert, insert_of_missing}
use declarative_conversion_o.Engine.Json.{Json, Object, object, as_object-object}
use declarative_conversion_o.Engine.Failure.{FieldPath}
use declarative_conversion_o.Engine.Path.{get_value}
use declarative_conversion_o.Engine.Runtime.{Runtime}
use declarative_conversion_o.Engine.Op
use declarative_conversion_o.Engine.Op.{Context, write}
use declarative_conversion_o.Engine.Ops.Maps.{renamed, rename_keys, apply_map_key_rename}
use declarative_conversion_o.Engine.Ops.RoundTrip.{get_value-write}
use declarative_conversion_o.Engine.Ops.Apply.{apply}

-- Every key renamed, every value and the order kept.
abbrev pub rename_all : Map String → Object → Object
rename_all renames [] = []
rename_all renames ((k, v) ∷ m) = (renamed renames k, v) ∷ rename_all renames m

-- One round of the loop, where it goes on.
rename_keys_cons :
    (dst : FieldPath) (renames : Map String) (k : String) (v : Json) (m acc : Object) {out : Object}
    → rename_keys dst renames ((k, v) ∷ m) acc ≡ ok out
    → (lookup (renamed renames k) acc ≡ none)
      × (rename_keys dst renames m (acc ++ (renamed renames k, v) ∷ []) ≡ ok out)
unfolding rename_keys
rename_keys_cons dst renames k v m acc h = elim (Option-cases (lookup (renamed renames k) acc)) [
  | inr (w, e) ↦ absurd (cc (rw e at h))
  | inl e ↦ (e, rw (← insert_of_missing (renamed renames k) v acc e) (rw e at h))
]

rename_keys-rename_all :
    (dst : FieldPath) (renames : Map String) (m acc : Object) {out : Object}
    → rename_keys dst renames m acc ≡ ok out
    → out ≡ acc ++ rename_all renames m
rename_keys-rename_all dst renames [] acc h =
    unfold rename_keys in sym (append-nil acc ∙ ok-injective h)
rename_keys-rename_all dst renames ((k, v) ∷ m) acc h =
    let (fresh, rest) = rename_keys_cons dst renames k v m acc h in
    rename_keys-rename_all dst renames m _ rest ∙ append_assoc acc _ _

-- No key stands twice, as in every map.
abbrev pub Distinct : Object → Type 0
Distinct [] = Unit
Distinct ((k, v) ∷ m) = (lookup k m ≡ none) × Distinct m

lookup_middle :
    (j k : String) (v : Json) (acc m : Object)
    → lookup j (acc ++ (k, v) ∷ m) ≡ none
    → (k == j) ≡ false
unfolding lookup
lookup_middle j k v [] m h = ground arith
lookup_middle j k v ((i, w) ∷ acc) m h = ground (arith, lookup_middle j k v acc m)

Distinct-middle :
    (k : String) (v : Json) (acc m : Object) → Distinct (acc ++ (k, v) ∷ m) → lookup k acc ≡ none
unfolding lookup
Distinct-middle k v [] m d = refl
Distinct-middle k v ((j, w) ∷ acc) m d =
    ground
      (arith, lookup_middle j k v acc m d.0, Distinct-middle k v acc m d.1, eq_iff j k, eq_iff k j)

rename_keys_total :
    (dst : FieldPath) (renames : Map String) (m acc : Object)
    → Distinct (acc ++ rename_all renames m)
    → rename_keys dst renames m acc ≡ ok (acc ++ rename_all renames m)
unfolding rename_keys
rename_keys_total dst renames [] acc d = ap ok (sym (append-nil acc))
rename_keys_total dst renames ((k, v) ∷ m) acc d =
    let fresh = Distinct-middle (renamed renames k) v acc (rename_all renames m) d in
    let here = append_assoc acc ((renamed renames k, v) ∷ []) (rename_all renames m) in
    rw (fresh, insert_of_missing (renamed renames k) v acc fresh)
      (rename_keys_total dst renames m (acc ++ (renamed renames k, v) ∷ []) (rw here d)
        ∙ ap ok here)

rename_all_back :
    (renames rev : Map String) (m : Object)
    → All (λ e. renamed rev (renamed renames e.0) ≡ e.0) m
    → rename_all rev (rename_all renames m) ≡ m
rename_all_back renames rev [] h = refl
rename_all_back renames rev ((k, v) ∷ m) h = cc (h.0, rename_all_back renames rev m h.1)

-- Where the reverse renames take every renamed key of a map without repeated keys back, renaming
-- back meets no collision and restores the map.
pub rename_keys_back :
    (src dst : FieldPath) (renames rev : Map String) (m : Object) {out : Object}
    → Distinct m
    → All (λ e. renamed rev (renamed renames e.0) ≡ e.0) m
    → rename_keys dst renames m [] ≡ ok out
    → rename_keys src rev out [] ≡ ok m
rename_keys_back src dst renames rev m d back there =
    let same = rename_all_back renames rev m back in
    rw (rename_keys-rename_all dst renames m [] there)
      (rename_keys_total src rev (rename_all renames m) [] (rw same d) ∙ ap ok same)

rename_one :
    (src dst : FieldPath) (renames : Map String) (m out : Object) (ctx : Context) {ctx' : Context}
    (rt : Runtime)
    → get_value ctx.input src ≡ some (object m)
    → rename_keys dst renames m [] ≡ ok out
    → apply rt (Op.map_key_rename src dst renames) ctx ≡ ok ctx'
    → get_value ctx'.output dst ≡ some (object out)
unfolding apply apply_map_key_rename
rename_one src dst renames m out ctx rt found renames_to h =
    get_value-write ctx dst _ (rw (found, as_object-object, renames_to) at h)

module _ (rt : Runtime) where
  -- With one rename, of a to b, a map that holds just the key b comes back from both directions
  -- holding the key a instead.
  pub rename_captures :
      (src dst : FieldPath) (a b : String) (v : Json) (c₁ c₂ : Context) {d₁ d₂ : Context}
      → a ≢ b
      → get_value c₁.input src ≡ some (object ((b, v) ∷ []))
      → apply rt (Op.map_key_rename src dst ((a, b) ∷ [])) c₁ ≡ ok d₁
      → c₂.input ≡ d₁.output
      → apply rt (Op.map_key_rename dst src ((b, a) ∷ [])) c₂ ≡ ok d₂
      → get_value d₂.output src ≡ some (object ((a, v) ∷ []))
  unfolding rename_keys lookup insert
  rename_captures src dst a b v c₁ c₂ ne found there link back =
      let there' =
        rename_one src dst ((a, b) ∷ []) ((b, v) ∷ []) ((b, v) ∷ []) c₁ rt found
          (ground (arith, eq_iff a b)) there in
      rename_one dst src ((b, a) ∷ []) ((b, v) ∷ []) ((a, v) ∷ []) c₂ rt (rw link there')
        (ground (arith, eq_refl b)) back
