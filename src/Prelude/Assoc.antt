-- ===== src/Prelude/Assoc.antt =====
-- Go's `map[string]V` as an association list. The order of the list is the order in which one run
-- iterates over the map; writing a key that is there keeps its place.
use Prim.Native.String.{String}
use mathlib.Core.Path.{◌≡◌, refl}
use mathlib.Core.Option.{Option, none, some}
use mathlib.Core.List.{List, [], ◌∷◌, ◌++◌}
use native.Mathlib.Omega.{arith}
use text.Mathlib.Text.{◌==◌}
use text.Mathlib.TextEquality.{eq_iff}
use declarative_conversion_o.Prelude.Tests.{if◌then◌else◌}

abbrev pub Map : Type 0 → Type 0
Map V = List (String × V)

module _ {V : Type 0} where
  -- v, ok := m[k]
  unfoldable pub lookup : String → Map V → Option V
  lookup key [] = none
  lookup key ((name, value) ∷ rest) = if name == key then some value else lookup key rest

  -- m[key] = value
  unfoldable pub insert : String → V → Map V → Map V
  insert key value [] = (key, value) ∷ []
  insert key value ((name, old) ∷ rest) =
      if name == key then (key, value) ∷ rest else (name, old) ∷ insert key value rest

  -- delete(m, k)
  unfoldable pub remove : String → Map V → Map V
  remove k [] = []
  remove k ((j, w) ∷ m) = let rest = remove k m in if j == k then rest else (j, w) ∷ rest

  pub lookup-insert :
      (key asked : String) (value : V) (m : Map V)
      → lookup asked (insert key value m) ≡ (if key == asked then some value else lookup asked m)
  unfolding lookup insert
  lookup-insert key asked value [] = refl
  lookup-insert key asked value ((name, old) ∷ rest) = ground (
    arith,
    lookup-insert key asked value rest,
    eq_iff key asked,
    eq_iff name key,
    eq_iff name asked,
  )

  pub lookup-remove :
      (k j : String) (m : Map V) → lookup j (remove k m) ≡ (if k == j then none else lookup j m)
  unfolding lookup remove
  lookup-remove k j [] = ground arith
  lookup-remove k j ((i, w) ∷ m) =
      ground (arith, eq_iff k j, eq_iff i k, eq_iff i j, lookup-remove k j m)

  -- Writing back what is there changes nothing.
  pub insert-lookup : (k : String) (v : V) (m : Map V) → lookup k m ≡ some v → insert k v m ≡ m
  unfolding lookup insert
  insert-lookup k v [] h = cc
  insert-lookup k v ((i, w) ∷ m) h = ground (arith, eq_iff i k, insert-lookup k v m)

  pub remove_of_missing : (k : String) (m : Map V) → lookup k m ≡ none → remove k m ≡ m
  unfolding lookup remove
  remove_of_missing k [] h = refl
  remove_of_missing k ((i, w) ∷ m) h = ground (arith, remove_of_missing k m)

-- for k, v := range src { dst[k] = v }
pub copy_into : {V : Type 0} → Map V → Map V → Map V
copy_into [] dst = dst
copy_into ((k, v) ∷ src) dst = copy_into src (insert k v dst)

-- A new key goes to the end.
pub insert_of_missing :
    {V : Type 0} (k : String) (v : V) (m : Map V)
    → lookup k m ≡ none
    → insert k v m ≡ m ++ (k, v) ∷ []
unfolding lookup insert
insert_of_missing k v [] h = refl
insert_of_missing k v ((j, w) ∷ m) h = ground (arith, insert_of_missing k v m)

pub lookup-append :
    {V : Type 0} (k : String) (m n : Map V)
    → lookup k (m ++ n) ≡ (elim (lookup k m) [ none ↦ lookup k n | some v ↦ some v ])
unfolding lookup
lookup-append k [] n = refl
lookup-append k ((j, w) ∷ m) n = ground (arith, lookup-append k m n)
