-- ===== src/Engine/Path/Writable.antt =====
-- When a write at a path succeeds.
use declarative_conversion_o.Prelude.{
  String, ◌≡◌, ◌≢◌, refl, sym, ap, ◌∙◌, true, Option, none, some, [], ◌∷◌, ◌++◌, inl, inr, ◌↔◌,
  Option-cases, is_some, and_then,
}
use declarative_conversion_o.Prelude.Result.{ok}
use declarative_conversion_o.Prelude.Assoc.{lookup, insert}
use declarative_conversion_o.Engine.Json.{Json, Object, object, as_object, as_object-object}
use declarative_conversion_o.Engine.Failure.{FieldPath}
use declarative_conversion_o.Engine.Path.{walk, get_value, set_value, descend, submap}
use declarative_conversion_o.Engine.Path.Access.{
  get_value_cons, get_value_below, descend-walk, set_value_deep,
}

-- What stands at a proper prefix of the path is a map.
abbrev pub IsOpen : Object → FieldPath → Type 0
IsOpen root path =
    (q : FieldPath) (s : String) (t : FieldPath) (v : Json)
    → path ≡ q ++ s ∷ t
    → get_value root q ≡ some v
    → is_some (as_object v) ≡ true

get_value_root : (root : Object) → get_value root [] ≡ some (object root)
unfolding get_value walk
get_value_root root = refl

is_some-object : (m : Object) {v : Json} → object m ≡ v → is_some (as_object v) ≡ true
is_some-object m e = rw (← e, as_object-object)

get_value_empty : (s : String) (q : FieldPath) → get_value [] (s ∷ q) ≡ none
unfolding lookup
get_value_empty s q = rw get_value_cons

IsOpen-empty : (path : FieldPath) → IsOpen [] path
IsOpen-empty path [] s t v e h = is_some-object [] (cc (get_value_root []))
IsOpen-empty path (x ∷ q) s t v e h = cc (get_value_empty x q)

IsOpen-below :
    (s n : String) (rest : FieldPath) (root m : Object)
    → submap s root ≡ some m
    → IsOpen root (s ∷ n ∷ rest)
    → IsOpen m (n ∷ rest)
IsOpen-below s n rest root m e free q x t v same h =
    free (s ∷ q) x t v (ap (λ p. s ∷ p) same) (get_value_below s root m q e ∙ h)

get_value_one : (s : String) (root : Object) → get_value root (s ∷ []) ≡ lookup s root
unfolding walk
get_value_one s root = get_value_cons s root [] ∙ go (lookup s root)
  where
    go : (o : Option Json) → and_then o (λ v. some v) ≡ o
    go none = refl
    go (some v) = refl

-- Where the write goes on: in a fresh map, or in the map that is there.
descend_total :
    (s n : String) (rest : FieldPath) (root : Object)
    → IsOpen root (s ∷ n ∷ rest)
    → (m : Object) × (descend s (lookup s root) ≡ ok m) × IsOpen m (n ∷ rest)
descend_total s n rest root free = elim (Option-cases (lookup s root)) [
  | inl e ↦ ([], rw e, IsOpen-empty (n ∷ rest))
  | inr (v, e) ↦ elim (Option-cases (as_object v)) [
    | inl f ↦
        let stands : is_some (as_object v) ≡ true =
          free (s ∷ []) n rest v refl (get_value_one s root ∙ e) in
        cc (rw f at stands)
    | inr (m, f) ↦ (m, rw (e, descend, f), IsOpen-below s n rest root m (rw e f) free)
  ]
]

-- A write goes through at every path that is not empty and on which no value but a map is in the way.
pub set_value_total :
    (path : FieldPath) (root : Object) (val : Json)
    → path ≢ []
    → IsOpen root path
    → (out : Object) × (set_value root path val ≡ ok out)
unfolding set_value
set_value_total [] root val ne free = absurd (ne refl)
set_value_total (s ∷ []) root val ne free = (insert s val root, refl)
set_value_total (s ∷ n ∷ rest) root val ne free =
    let (m, found, below) = descend_total s n rest root free in
    let (m', written) = set_value_total (n ∷ rest) m val (λ e. cc e) below in
    (insert s (object m') root, rw (found, written))

descend-as_object :
    (s : String) (v : Json) {m : Object} → descend s (some v) ≡ ok m → is_some (as_object v) ≡ true
descend-as_object s v h = elim (Option-cases (as_object v)) [
  | inl e ↦ cc (rw (e, descend) at h)
  | inr (m, e) ↦ rw e
]

-- A write that goes through had no value but maps in the way.
set_value-IsOpen :
    (path : FieldPath) (root : Object) (val : Json) {out : Object}
    → set_value root path val ≡ ok out
    → IsOpen root path
set_value-IsOpen path root val h [] s t v e g = is_some-object root (cc (get_value_root root))
set_value-IsOpen [] root val h (x ∷ q) s t v e g = cc
set_value-IsOpen (p ∷ []) root val h (x ∷ []) s t v e g = cc
set_value-IsOpen (p ∷ []) root val h (x ∷ y ∷ q) s t v e g = cc
set_value-IsOpen (p ∷ n ∷ rest) root val h (x ∷ []) s t v e g =
    let (m, m', found, written, same) = set_value_deep p n rest root val h in
    let here : lookup p root ≡ some v = sym (get_value_one p root) ∙ cc in
    descend-as_object p v (rw here at found)
set_value-IsOpen (p ∷ n ∷ rest) root val h (x ∷ y ∷ q) s t v e g =
    let (m, m', found, written, same) = set_value_deep p n rest root val h in
    let moved : get_value m (y ∷ q) ≡ some v =
      descend-walk p y (lookup p root) m q found ∙ sym (get_value_cons p root (y ∷ q)) ∙ cc in
    set_value-IsOpen (n ∷ rest) m val written (y ∷ q) s t v (cc) moved

set_value-ne-nil :
    (path : FieldPath) (root : Object) (val : Json) {out : Object}
    → set_value root path val ≡ ok out
    → path ≢ []
unfolding set_value
set_value-ne-nil [] root val h = absurd (cc h)
set_value-ne-nil (s ∷ path) root val h = λ e. cc e

-- A write succeeds exactly at the paths that are not empty and have nothing but maps, or nothing at
-- all, at their proper prefixes.
pub set_value_iff :
    (path : FieldPath) (root : Object) (val : Json)
    → ((path ≢ []) × IsOpen root path) ↔ ((out : Object) × (set_value root path val ≡ ok out))
set_value_iff path root val = (
  λ h. set_value_total path root val h.0 h.1,
  λ h. (set_value-ne-nil path root val h.1, set_value-IsOpen path root val h.1),
)
