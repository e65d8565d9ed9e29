-- ===== src/Engine/Path/Access.antt =====
-- Reading after writing and after deleting at a path.
use declarative_conversion_o.Prelude.{
  String, ◌≡◌, ◌≢◌, refl, sym, ◌∙◌, false, Option, none, some, [], ◌∷◌, arith, ◌==◌, eq_iff,
  eq_refl, inl, inr, Option-cases, Bool-cases, and_then,
}
use declarative_conversion_o.Prelude.Result.{ok, bind-eq-ok}
use declarative_conversion_o.Prelude.Assoc.{lookup, insert, remove, lookup-insert, lookup-remove}
use declarative_conversion_o.Engine.Json.{
  Json, Object, object, as_object, as_object-object, object-as_object,
}
use declarative_conversion_o.Engine.Failure.{FieldPath}
use declarative_conversion_o.Engine.Path.{
  walk, get_value, set_value, descend, has_prefix, delete_value, submap, delete_below,
}

-- Neither path is a prefix of the other.
pub record Disjoint (p q : FieldPath) : Type 0 where
  pub left : has_prefix p q ≡ false
  pub right : has_prefix q p ≡ false

-- One step of a read.
pub get_value_cons :
    (seg : String) (m : Object) (path : FieldPath)
    → get_value m (seg ∷ path) ≡ and_then (lookup seg m) (λ v. walk v path)
unfolding get_value walk
get_value_cons seg m path = rw as_object-object

pub walk-object : (m : Object) (path : FieldPath) → walk (object m) path ≡ get_value m path
unfolding get_value
walk-object m path = refl

-- What a write below the first segment did.
pub set_value_deep :
    (seg next : String) (rest : FieldPath) (root : Object) (val : Json) {out : Object}
    → set_value root (seg ∷ next ∷ rest) val ≡ ok out
    → (m m' : Object) × (descend seg (lookup seg root) ≡ ok m)
      × (set_value m (next ∷ rest) val ≡ ok m')
      × (out ≡ insert seg (object m') root)
unfolding set_value
set_value_deep seg next rest root val h =
    let (m, found, h') = bind-eq-ok (descend seg (lookup seg root)) _ h in
    let (m', written, same) = bind-eq-ok (set_value m (next ∷ rest) val) _ h' in
    (m, m', found, written, cc)

pub set_value_one :
    (seg : String) (root : Object) (val : Json) {out : Object}
    → set_value root (seg ∷ []) val ≡ ok out
    → out ≡ insert seg val root
unfolding set_value
set_value_one seg root val h = cc

lookup-insert_self : (k : String) (v : Json) (m : Object) → lookup k (insert k v m) ≡ some v
lookup-insert_self k v m = simp (lookup-insert, eq_refl)

pub get_value-insert_self :
    (seg : String) (v : Json) (root : Object) (path : FieldPath)
    → get_value (insert seg v root) (seg ∷ path) ≡ walk v path
get_value-insert_self seg v root path = rw (get_value_cons, lookup-insert_self) refl

get_value-insert_ne :
    (seg other : String) (v : Json) (root : Object) (path : FieldPath)
    → (seg == other) ≡ false
    → get_value (insert seg v root) (other ∷ path) ≡ get_value root (other ∷ path)
get_value-insert_ne seg other v root path ne = simp (get_value_cons, lookup-insert, ne)

-- A write that succeeds is read back: the path then holds the value written.
pub get_value-set_value :
    (path : FieldPath) (root : Object) (val : Json) {out : Object}
    → set_value root path val ≡ ok out
    → get_value out path ≡ some val
get_value-set_value [] root val h = unfold set_value in cc
get_value-set_value (seg ∷ []) root val h =
    rw (set_value_one seg root val h, get_value-insert_self) (unfold walk in refl)
get_value-set_value (seg ∷ next ∷ rest) root val h =
    let (m, m', found, written, same) = set_value_deep seg next rest root val h in
    rw (same, get_value-insert_self, walk-object) (get_value-set_value (next ∷ rest) m val written)

-- Where a write goes on below a segment, reads went on before.
pub descend-walk :
    (seg t : String) (o : Option Json) (m : Object) (q : FieldPath)
    → descend seg o ≡ ok m
    → get_value m (t ∷ q) ≡ and_then o (λ v. walk v (t ∷ q))
unfolding walk
descend-walk seg t none m q h =
    let fresh : m ≡ [] = cc in rw (fresh, get_value_cons) (unfold lookup in refl)
descend-walk seg t (some v) m q h = elim (Option-cases (as_object v)) [
  | inl e ↦ cc (rw (e, descend) at h)
  | inr (m₀, e) ↦ let same : m ≡ m₀ = cc (rw (e, descend) at h) in rw (e, same, get_value_cons) refl
]

-- A write that succeeds leaves every path alone that is neither a prefix of its path nor has it as
-- a prefix.
pub get_value-set_value-Disjoint :
    (p q : FieldPath) (root : Object) (val : Json) {out : Object}
    → set_value root p val ≡ ok out
    → Disjoint p q
    → get_value out q ≡ get_value root q
unfolding has_prefix
get_value-set_value-Disjoint [] q root val h d = unfold set_value in cc
get_value-set_value-Disjoint (s ∷ p) [] root val h d = cc d.left
get_value-set_value-Disjoint (s ∷ []) (t ∷ q) root val h d =
    rw (set_value_one s root val h)
      (get_value-insert_ne s t val root q (ground (arith, d.right, eq_iff s t, eq_iff t s)))
get_value-set_value-Disjoint (s ∷ n ∷ p) (t ∷ []) root val h d =
    let (m, m', found, written, same) = set_value_deep s n p root val h in
    rw same (get_value-insert_ne s t (object m') root [] (ground (arith, d.left)))
get_value-set_value-Disjoint (s ∷ n ∷ p) (t ∷ u ∷ q) root val h d =
    let (m, m', found, written, same) = set_value_deep s n p root val h in
    rw same (elim (Bool-cases (s == t)) [
      | inl e ↦
          let here : s ≡ t = (eq_iff s t).0 e in
          let apart : Disjoint (n ∷ p) (u ∷ q) = record {
            left = ground (arith, d.left, e);
            right = ground (arith, d.right, (eq_iff t s).1 (sym here));
          } in
          rw (← here, get_value-insert_self, walk-object)
            (get_value-set_value-Disjoint (n ∷ p) (u ∷ q) m val written apart
              ∙ descend-walk s u (lookup s root) m q found
              ∙ sym (get_value_cons s root (u ∷ q)))
      | inr e ↦ get_value-insert_ne s t (object m') root (u ∷ q) e
    ])

-- A path that is not empty holds nothing once it is deleted.
pub get_value-delete_value :
    (path : FieldPath) (root : Object) → path ≢ [] → get_value (delete_value root path) path ≡ none
unfolding delete_value
get_value-delete_value [] root h = absurd (h refl)
get_value-delete_value (s ∷ []) root h = simp (get_value_cons, lookup-remove, eq_refl)
get_value-delete_value (s ∷ t ∷ p) root h = elim (Option-cases (lookup s root)) [
  | inl e ↦ rw (e, get_value_cons, e) refl
  | inr (v, e) ↦ elim (Option-cases (as_object v)) [
    | inl f ↦ rw (e, f, get_value_cons, e) (unfold walk in rw f)
    | inr (m, f) ↦
        rw (e, f, get_value-insert_self, walk-object) (get_value-delete_value (t ∷ p) m (λ q. cc q))
  ]
]

get_value-remove_ne :
    (s t : String) (root : Object) (q : FieldPath)
    → (s == t) ≡ false
    → get_value (remove s root) (t ∷ q) ≡ get_value root (t ∷ q)
get_value-remove_ne s t root q ne = simp (get_value_cons, lookup-remove, ne)

-- Reading below a segment is reading in the map there.
pub get_value_below :
    (s : String) (root m : Object) (q : FieldPath)
    → submap s root ≡ some m
    → get_value root (s ∷ q) ≡ get_value m q
get_value_below s root m q h = elim (Option-cases (lookup s root)) [
  | inl e ↦ cc (rw e at h)
  | inr (v, e) ↦ rw (get_value_cons, e) (rw (← object-as_object v m (rw e at h)) (walk-object m q))
]

delete_below_ne :
    (s t : String) (root : Object) (f : Object → Object) (o : Option Object) (q : FieldPath)
    → (s == t) ≡ false
    → get_value (delete_below s root f o) (t ∷ q) ≡ get_value root (t ∷ q)
delete_below_ne s t root f none q ne = refl
delete_below_ne s t root f (some m) q ne = get_value-insert_ne s t (object (f m)) root q ne

-- A deletion leaves every path alone that is neither a prefix of its path nor has it as a prefix.
pub get_value-delete_value-Disjoint :
    (p q : FieldPath) (root : Object)
    → Disjoint p q
    → get_value (delete_value root p) q ≡ get_value root q
unfolding delete_value has_prefix
get_value-delete_value-Disjoint [] q root d = refl
get_value-delete_value-Disjoint (s ∷ p) [] root d = cc d.left
get_value-delete_value-Disjoint (s ∷ []) (t ∷ q) root d =
    get_value-remove_ne s t root q (ground (arith, d.right, eq_iff s t, eq_iff t s))
get_value-delete_value-Disjoint (s ∷ n ∷ p) (t ∷ []) root d =
    delete_below_ne s t root (λ m. delete_value m (n ∷ p)) (submap s root) []
      (ground (arith, d.left))
get_value-delete_value-Disjoint (s ∷ n ∷ p) (t ∷ u ∷ q) root d = elim (Bool-cases (s == t)) [
  | inr e ↦ delete_below_ne s t root (λ m. delete_value m (n ∷ p)) (submap s root) (u ∷ q) e
  | inl e ↦
      let here : s ≡ t = (eq_iff s t).0 e in
      let apart : Disjoint (n ∷ p) (u ∷ q) = record {
        left = ground (arith, d.left, e);
        right = ground (arith, d.right, (eq_iff t s).1 (sym here));
      } in
      elim (Option-cases (submap s root)) [
        | inl f ↦ rw f
        | inr (m, f) ↦
            rw (f, ← here, get_value-insert_self, walk-object)
              (get_value-delete_value-Disjoint (n ∷ p) (u ∷ q) m apart
                ∙ sym (get_value_below s root m (u ∷ q) f))
      ]
]
