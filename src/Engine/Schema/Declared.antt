-- ===== src/Engine/Schema/Declared.antt =====
-- The leaves of a schema are leaves of the tree of its declared keys.
use mathlib.Core.List.{Memᴰ, append_assoc, append-nil}
use declarative_conversion_o.Prelude.{
  some, String, ◌≡◌, refl, sym, ◌∙◌, Bool, true, false, ◌||◌, not, List, [], ◌∷◌, ◌++◌, inl, inr,
  arith, ◌==◌, eq_iff, Bool-cases, All, All-append,
}
use declarative_conversion_o.Engine.Failure.{FieldPath}
use declarative_conversion_o.Engine.Kind.{FieldKind}
use declarative_conversion_o.Engine.Known.{KnownTree, node, leaf, children, child_map}
use declarative_conversion_o.Engine.Schema.{
  Schema, schema, Properties, no_properties, property, LeafField, classify, has_properties,
  is_object, is_structural_node, unresolved_construct, leaf_of, whole_for, is_unknown, node_leaves,
  node_tree, flatten_into, flatten_schema, flatten_properties, build_known_tree, build_children,
}

-- A node of the tree below another, along the keys of a path.
pub data Reaches : KnownTree → FieldPath → KnownTree → Type 0 where
  here : {t : KnownTree} → Reaches t [] t
  below :
      {t u : KnownTree} {k : String} {p : FieldPath} (c : KnownTree)
      → Memᴰ (k, c) (children t)
      → Reaches c p u
      → Reaches t (k ∷ p) u

-- No node of the schema has a $ref or an allOf left.
abbrev mutual
  pub Normalized : Schema → Type 0
  Normalized (schema f e ps) = (unresolved_construct (schema f e ps) ≡ "") × AllNormalized ps

  pub AllNormalized : Properties → Type 0
  AllNormalized no_properties = Unit
  AllNormalized (property name s ps) = Normalized s × AllNormalized ps

-- The path of the field goes on from `path` to a leaf of the tree.
pub record Declared (t : KnownTree) (path : FieldPath) (l : LeafField) : Type 0 where
  pub rest : FieldPath
  pub same : l.path ≡ path ++ rest
  pub reaches : Reaches t rest leaf

Declared-here : (path : FieldPath) (l : LeafField) → l.path ≡ path → Declared leaf path l
Declared-here path l e = record {
  rest = [];
  same = e ∙ sym (append-nil path);
  reaches = Reaches.here;
}

Declared-below :
    (t c : KnownTree) (path : FieldPath) (k : String)
    → Memᴰ (k, c) (children t)
    → (ls : List LeafField) → All (Declared c (path ++ k ∷ [])) ls
    → All (Declared t path) ls
Declared-below t c path k m [] h = tt
Declared-below t c path k m (l ∷ ls) (d, h) = (
  record {
    rest = k ∷ d.rest;
    same = d.same ∙ append_assoc path (k ∷ []) d.rest;
    reaches = Reaches.below c m d.reaches;
  },
  Declared-below t c path k m ls h,
)

-- The leaf of a node that has no keys below it in the tree.
Declared-leaf :
    (s : Schema) (t : KnownTree) (path : FieldPath) (required : List String) (is_opaque : Bool)
    (construct : String)
    → t ≡ leaf
    → Declared t path (leaf_of s path required is_opaque construct)
unfolding leaf_of
Declared-leaf s t path required is_opaque construct e = rw e (Declared-here path _ refl)

no_keys :
    (s : Schema) (has_any : Bool) (t : KnownTree)
    → ((classify s).1 || not (is_object (classify s).0)) ≡ true
    → node_tree s has_any t ≡ leaf
unfolding node_tree
no_keys s has_any t h = ground (arith, h)

not_object : (k : FieldKind) → is_unknown k ≡ true → is_object k ≡ false
not_object FieldKind.unknown h = refl
not_object _ h = cc h

kept_whole :
    (s : Schema)
    → unresolved_construct s ≡ ""
    → (whole_for s == "") ≡ false
    → ((classify s).1 || not (is_object (classify s).0)) ≡ true
unfolding whole_for is_structural_node
kept_whole s h w =
    ground (arith, w, (eq_iff (unresolved_construct s) "").1 h, not_object (classify s).0)

keys_below :
    (s : Schema) (t : KnownTree)
    → (classify s).1 ≡ false
    → is_object (classify s).0 ≡ true
    → node_tree s true t ≡ t
unfolding node_tree
keys_below s t o b = ground (arith, o, b)

deep_leaves :
    (s : Schema) (has_any : Bool) (t : KnownTree) (path : FieldPath) (ls : List LeafField)
    → (classify s).1 ≡ false
    → is_object (classify s).0 ≡ true
    → (has_any ≡ false → ls ≡ [])
    → All (Declared t path) ls
    → All (Declared (node_tree s has_any t) path) ls
deep_leaves s true t path ls o b none deep = rw (keys_below s t o b) deep
deep_leaves s false t path ls o b none deep = rw (none refl) tt

-- Whatever the node is, its leaf or the leaves of its properties.
flatten_node :
    (s : Schema) (has_any : Bool) (t : KnownTree) (path : FieldPath) (required : List String)
    (ls : List LeafField)
    → unresolved_construct s ≡ ""
    → (has_any ≡ false → ls ≡ [])
    → All (Declared t path) ls
    → All (Declared (node_tree s has_any t) path) (node_leaves s path required ls)
unfolding node_leaves
flatten_node s has_any t path required ls h none deep = elim (Bool-cases (whole_for s == "")) [
  | inr w ↦
      rw w (Declared-leaf s _ path required true _ (no_keys s has_any t (kept_whole s h w)), tt)
  | inl w ↦ elim (Bool-cases (classify s).1) [
    | inl o ↦
        rw (w, o)
          (Declared-leaf s _ path required true "" (no_keys s has_any t (ground (arith, o))), tt)
    | inr o ↦ elim (Bool-cases (is_object (classify s).0)) [
      | inr b ↦
          rw (w, o, b)
            (Declared-leaf s _ path required false "" (no_keys s has_any t (ground (arith, b))), tt)
      | inl b ↦ rw (w, o, b) (deep_leaves s has_any t path ls o b none deep)
    ]
  ]
]

no_leaves :
    (ps : Properties) (path : FieldPath) (required : List String)
    → has_properties ps ≡ false
    → flatten_properties ps path required ≡ []
unfolding flatten_properties
no_leaves no_properties path required h = refl
no_leaves (property name s ps) path required h = cc h

mutual
  unfolding flatten_into build_known_tree child_map

  -- The leaves of a node and of its properties.
  flatten_into-Declared :
      (s : Schema) (path : FieldPath) (required : List String)
      → Normalized s
      → All (Declared (build_known_tree s) path) (flatten_into s path required)
  flatten_into-Declared (schema f e ps) path required (h, hs) =
      flatten_node (schema f e ps) (has_properties ps) (node (build_children ps)) path required
        (flatten_properties ps path f.required) h (no_leaves ps path f.required)
        (flatten_properties-Declared ps path f.required (node (build_children ps)) hs (λ e m. m))

  flatten_properties-Declared :
      (ps : Properties) (path : FieldPath) (required : List String) (t : KnownTree)
      → AllNormalized ps
      → ((e : String × KnownTree) → Memᴰ e (child_map (build_children ps)) → Memᴰ e (children t))
      → All (Declared t path) (flatten_properties ps path required)
  flatten_properties-Declared no_properties path required t h into = tt
  flatten_properties-Declared (property name s ps) path required t (h, hs) into =
      All-append (Declared t path) (flatten_into s (path ++ name ∷ []) required)
        (flatten_properties ps path required)
        (Declared-below t (build_known_tree s) path name
          (into (name, build_known_tree s) (Memᴰ.head refl))
          (flatten_into s (path ++ name ∷ []) required)
          (flatten_into-Declared s (path ++ name ∷ []) required h))
        (flatten_properties-Declared ps path required t hs (λ e m. into e (Memᴰ.tail m)))

-- Every leaf of a schema without a $ref or an allOf left has a path to a leaf of the tree of
-- declared keys.
pub flatten_schema-Declared :
    (s : Schema) → Normalized s → All (Declared (build_known_tree s) []) (flatten_schema (some s))
unfolding flatten_schema
flatten_schema-Declared s h = flatten_into-Declared s [] [] h
