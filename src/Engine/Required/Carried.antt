-- ===== src/Engine/Required/Carried.antt =====
-- pkg/engine/required.go: the leaves that a converted object has to carry are among those checked.
use mathlib.Core.List.{Memᴰ}
use declarative_conversion_o.Prelude.{
  String, ◌≡◌, refl, sym, ap, ◌∙◌, ◌⊎◌, Option, none, if◌then◌else◌, inl, inr, Bool, true, false,
  ◌||◌, some, List, [], ◌∷◌, ◌++◌, arith, ◌==◌, eq_refl, Bool-cases, any,
}
use declarative_conversion_o.Prelude.Text.{append, has_prefix, str_ltb}
use declarative_conversion_o.Engine.Failure.{FieldPath}
use declarative_conversion_o.Engine.Path.{path_string}
use declarative_conversion_o.Engine.Schema.{
  Schema, LeafField, flatten_schema, property_of, properties_of,
}
use declarative_conversion_o.Engine.Diagnostics.{RuleResult}
use declarative_conversion_o.Engine.Required.{DestSide, dest_paths, all_dest_paths}
use declarative_conversion_o.Engine.Required.Leaves.{
  contains, any_has_prefix, required_of, ancestors_from, ancestors_present, RequiredLeaf, add_leaf,
  required_leaves, insert_leaf, sort_leaves, unconditionally_required_leaves,
}

pub any-Mem {ℓ} :
    {A : Type ℓ} (p : A → Bool) (x : A) (xs : List A) → Memᴰ x xs → p x ≡ true → any p xs ≡ true
any-Mem p x [] m h = elim m [ ]
any-Mem p x (y ∷ ys) (Memᴰ.head e) h = rw (← e, h) refl
any-Mem p x (y ∷ ys) (Memᴰ.tail m) h = ground (arith, any-Mem p x ys m h)

contains-Mem : (x : String) (xs : List String) → Memᴰ x xs → contains xs x ≡ true
contains-Mem x xs m = any-Mem (λ p. p == x) x xs m (eq_refl x)

Mem-append {ℓ} : {A : Type ℓ} (x : A) (xs ys : List A) → Memᴰ x ys → Memᴰ x (xs ++ ys)
Mem-append x [] ys m = m
Mem-append x (y ∷ xs) ys m = Memᴰ.tail (Mem-append x xs ys m)

append-Mem {ℓ} : {A : Type ℓ} (x : A) (xs ys : List A) → Memᴰ x xs → Memᴰ x (xs ++ ys)
append-Mem x [] ys m = elim m [ ]
append-Mem x (y ∷ xs) ys (Memᴰ.head e) = Memᴰ.head e
append-Mem x (y ∷ xs) ys (Memᴰ.tail m) = Memᴰ.tail (append-Mem x xs ys m)

module _ (side : DestSide) (results : List RuleResult) where
  -- A rule has the path on the side of the destination.
  pub record IsNamed (path : String) : Type 0 where
    pub by : RuleResult
    pub is_result : Memᴰ by results
    pub has_path : Memᴰ path (dest_paths side by)

  -- An object on the way exists in what the conversion writes: its parent requires it, or a rule
  -- names something below it, or names it.
  pub data Exists (at : FieldPath) (s : Schema) (seg : String) : Type 0 where
    required : Memᴰ seg (required_of s) → Exists at s seg
    written_below :
        (path : String)
        → IsNamed path
        → has_prefix path (append (path_string (at ++ seg ∷ [])) ".") ≡ true
        → Exists at s seg
    written : IsNamed (path_string (at ++ seg ∷ [])) → Exists at s seg

  -- Every object above the end of a path exists.
  pub data IsCarried : FieldPath → Schema → FieldPath → Type 0 where
    here : {at : FieldPath} {s : Schema} → IsCarried at s []
    at_end : {at : FieldPath} {s : Schema} {seg : String} → IsCarried at s (seg ∷ [])
    inside :
        {at : FieldPath} {s below : Schema} {seg next : String} {segs : FieldPath}
        → property_of seg (properties_of s) ≡ some below
        → Exists at s seg
        → IsCarried (at ++ seg ∷ []) below (next ∷ segs)
        → IsCarried at s (seg ∷ next ∷ segs)

named_path :
    (side : DestSide) (rrs : List RuleResult) (rr : RuleResult) (path : String)
    → Memᴰ rr rrs
    → Memᴰ path (dest_paths side rr)
    → Memᴰ path (all_dest_paths side rrs)
unfolding all_dest_paths
named_path side [] rr path m h = elim m [ ]
named_path side (r ∷ rrs) rr path (Memᴰ.head e) h =
    append-Mem path (dest_paths side r) (all_dest_paths side rrs) (rw e at h)
named_path side (r ∷ rrs) rr path (Memᴰ.tail m) h =
    Mem-append path (dest_paths side r) (all_dest_paths side rrs) (named_path side rrs rr path m h)

added_here :
    (x : LeafField) (rest : List RequiredLeaf) (b : Bool) (o : Option Bool) (l : LeafField)
    (w : Bool)
    → l ≡ x
    → b ≡ true
    → o ≡ some w
    → (k : RequiredLeaf) × (k.leaf ≡ l) × Memᴰ k (if b then add_leaf x o rest else rest)
added_here x rest true none l w e h p = cc p
added_here x rest true (some v) l w e h p =
    (record { leaf = x; ancestor_written_wholesale = v }, sym e, Memᴰ.head refl)
added_here x rest false o l w e h p = cc h

added_before :
    (x : LeafField) (k : RequiredLeaf) (rest : List RequiredLeaf) (b : Bool) (o : Option Bool)
    → Memᴰ k rest
    → Memᴰ k (if b then add_leaf x o rest else rest)
added_before x k rest true none m = m
added_before x k rest true (some v) m = Memᴰ.tail m
added_before x k rest false o m = m

module _ (side : DestSide) (results : List RuleResult) where
  IsNamed-Mem :
      (path : String) → IsNamed side results path → Memᴰ path (all_dest_paths side results)
  IsNamed-Mem path n = named_path side results n.by path n.is_result n.has_path

  exists_cases :
      (at : FieldPath) (s : Schema) (seg : String)
      → Exists side results at s seg
      → let written = all_dest_paths side results in
        ((contains (required_of s) seg
            || any_has_prefix written (append (path_string (at ++ seg ∷ [])) "."))
          ≡ true)
        ⊎ (contains written (path_string (at ++ seg ∷ [])) ≡ true)
  exists_cases at s seg (required m) = inl (ground (arith, contains-Mem seg (required_of s) m))
  exists_cases at s seg (written_below path n below) =
      let prefix = append (path_string (at ++ seg ∷ [])) "." in
      let found =
        any-Mem (λ p. has_prefix p prefix) path (all_dest_paths side results) (IsNamed-Mem path n)
          below in
      inl (ground (arith, found))
  exists_cases at s seg (written n) =
      inr (contains-Mem (path_string (at ++ seg ∷ [])) _ (IsNamed-Mem _ n))

  ancestors-some :
      {at : FieldPath} {s : Schema} {path : FieldPath}
      → IsCarried side results at s path
      → (w : Bool)
      → (v : Bool) × (ancestors_from (all_dest_paths side results) w at s path ≡ some v)
  unfolding ancestors_from
  ancestors-some here w = (w, refl)
  ancestors-some at_end w = (w, refl)
  ancestors-some (inside {at} {s} {below} {seg} found exists rest) w =
      let names = all_dest_paths side results in
      let first =
        contains (required_of s) seg
        || any_has_prefix names (append (path_string (at ++ seg ∷ [])) ".") in
      elim (Bool-cases first) [
        | inl e ↦ rw (e, found) (ancestors-some rest w)
        | inr e ↦ elim (exists_cases at s seg exists) [
          | inl f ↦ cc (e, f)
          | inr f ↦ rw (e, f, found) (ancestors-some rest true)
        ]
      ]

  -- A required leaf is among the leaves that are checked.
  listed :
      (dest : Schema) (l : LeafField) (w : Bool) (ls : List LeafField)
      → Memᴰ l ls
      → l.required ≡ true
      → ancestors_present dest l.path (all_dest_paths side results) ≡ some w
      → (k : RequiredLeaf) × (k.leaf ≡ l)
        × Memᴰ k (required_leaves dest (all_dest_paths side results) ls)
  unfolding required_leaves
  listed dest l w [] m r p = elim m [ ]
  listed dest l w (x ∷ ls) (Memᴰ.head e) r p =
      added_here x (required_leaves dest (all_dest_paths side results) ls) x.required
        (ancestors_present dest x.path (all_dest_paths side results)) l w e
        (sym (ap (λ (y : LeafField). y.required) e) ∙ r)
        (sym (ap (λ (y : LeafField). ancestors_present dest y.path (all_dest_paths side results)) e)
          ∙ p)
  listed dest l w (x ∷ ls) (Memᴰ.tail m) r p =
      let (k, same, n) = listed dest l w ls m r p in
      (
        k,
        same,
        added_before x k (required_leaves dest (all_dest_paths side results) ls) x.required
            (ancestors_present dest x.path (all_dest_paths side results)) n,
      )

insert_leaf-Mem_self : (l : RequiredLeaf) (ls : List RequiredLeaf) → Memᴰ l (insert_leaf l ls)
unfolding insert_leaf
insert_leaf-Mem_self l [] = Memᴰ.head refl
insert_leaf-Mem_self l (j ∷ ls) =
    elim (Bool-cases (str_ltb (path_string j.leaf.path) (path_string l.leaf.path))) [
      | inl e ↦ rw e (Memᴰ.tail (insert_leaf-Mem_self l ls))
      | inr e ↦ rw e (Memᴰ.head refl)
    ]

insert_leaf-Mem :
    (k l : RequiredLeaf) (ls : List RequiredLeaf) → Memᴰ k ls → Memᴰ k (insert_leaf l ls)
unfolding insert_leaf
insert_leaf-Mem k l [] m = elim m [ ]
insert_leaf-Mem k l (j ∷ ls) (Memᴰ.head same) =
    elim (Bool-cases (str_ltb (path_string j.leaf.path) (path_string l.leaf.path))) [
      | inl e ↦ rw e (Memᴰ.head same)
      | inr e ↦ rw e (Memᴰ.tail (Memᴰ.head same))
    ]
insert_leaf-Mem k l (j ∷ ls) (Memᴰ.tail m) =
    elim (Bool-cases (str_ltb (path_string j.leaf.path) (path_string l.leaf.path))) [
      | inl e ↦ rw e (Memᴰ.tail (insert_leaf-Mem k l ls m))
      | inr e ↦ rw e (Memᴰ.tail (Memᴰ.tail m))
    ]

sort_leaves-Mem : (k : RequiredLeaf) (ls : List RequiredLeaf) → Memᴰ k ls → Memᴰ k (sort_leaves ls)
unfolding sort_leaves
sort_leaves-Mem k [] m = m
sort_leaves-Mem k (l ∷ ls) (Memᴰ.head e) = rw e (insert_leaf-Mem_self l (sort_leaves ls))
sort_leaves-Mem k (l ∷ ls) (Memᴰ.tail m) =
    insert_leaf-Mem k l (sort_leaves ls) (sort_leaves-Mem k ls m)

pub carried_leaf :
    (side : DestSide) (results : List RuleResult) (dest : Schema) (l : LeafField)
    → Memᴰ l (flatten_schema (some dest))
    → l.required ≡ true
    → IsCarried side results [] dest l.path
    → (k : RequiredLeaf) × (k.leaf ≡ l)
      × Memᴰ k (unconditionally_required_leaves dest (all_dest_paths side results))
unfolding unconditionally_required_leaves ancestors_present
carried_leaf side results dest l member r carried =
    let (w, present) = ancestors-some side results carried false in
    let (k, same, m) = listed side results dest l w (flatten_schema (some dest)) member r present in
    (k, same, sort_leaves-Mem k _ m)
