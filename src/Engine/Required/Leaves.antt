-- ===== src/Engine/Required/Leaves.antt =====
-- pkg/engine/required.go: the leaves that a converted object has to carry.
use declarative_conversion_o.Prelude.{
  String, Bool, true, false, ◌||◌, Option, none, some, List, [], ◌∷◌, ◌++◌, ◌==◌, any,
  if◌then◌else◌,
}
use declarative_conversion_o.Prelude.Text.{append, has_prefix, str_ltb}
use declarative_conversion_o.Engine.Failure.{FieldPath}
use declarative_conversion_o.Engine.Path.{path_string}
use declarative_conversion_o.Engine.Schema.{
  Schema, schema, LeafField, flatten_schema, property_of, properties_of,
}

abbrev pub contains : List String → String → Bool
contains paths want = any (λ p. p == want) paths

abbrev pub any_has_prefix : List String → String → Bool
any_has_prefix paths prefix = any (λ p. has_prefix p prefix) paths

abbrev pub required_of : Schema → List String
required_of (schema f e ps) = f.required

abbrev pub with_next : Option Schema → (Schema → Option Bool) → Option Bool
with_next none rest = none
with_next (some next) rest = rest next

-- Whether every object on the way to the path exists in a converted object, `none` if not, and
-- whether one of them exists only because a rule writes it whole.
unfoldable pub ancestors_from : List String → Bool → FieldPath → Schema → FieldPath → Option Bool
unfolding property_of
ancestors_from written wholesale at s [] = some wholesale
ancestors_from written wholesale at s (seg ∷ []) = some wholesale
ancestors_from written wholesale at s (seg ∷ next ∷ segs) =
    let ancestor = path_string (at ++ seg ∷ []) in
    let go : Bool → Option Bool = λ w.
      with_next (property_of seg (properties_of s))
        (λ below. ancestors_from written w (at ++ seg ∷ []) below (next ∷ segs)) in
    if contains (required_of s) seg || any_has_prefix written (append ancestor ".")
    then go wholesale
    else if contains written ancestor
    then go true
    else none

unfoldable pub ancestors_present : Schema → FieldPath → List String → Option Bool
unfolding ancestors_from
ancestors_present root path written = ancestors_from written false [] root path

pub record RequiredLeaf : Type 0 where
  pub leaf : LeafField
  pub ancestor_written_wholesale : Bool

abbrev pub add_leaf : LeafField → Option Bool → List RequiredLeaf → List RequiredLeaf
add_leaf l none rest = rest
add_leaf l (some w) rest = record { leaf = l; ancestor_written_wholesale = w } ∷ rest

unfoldable pub required_leaves : Schema → List String → List LeafField → List RequiredLeaf
unfolding ancestors_present
required_leaves s written [] = []
required_leaves s written (l ∷ ls) =
    let rest = required_leaves s written ls in
    if l.required then add_leaf l (ancestors_present s l.path written) rest else rest

unfoldable pub insert_leaf : RequiredLeaf → List RequiredLeaf → List RequiredLeaf
insert_leaf l [] = l ∷ []
insert_leaf l (k ∷ ks) =
    let rest = insert_leaf l ks in
    if str_ltb (path_string k.leaf.path) (path_string l.leaf.path) then k ∷ rest else l ∷ k ∷ ks

unfoldable pub sort_leaves : List RequiredLeaf → List RequiredLeaf
unfolding insert_leaf
sort_leaves [] = []
sort_leaves (l ∷ ls) = insert_leaf l (sort_leaves ls)

unfoldable pub unconditionally_required_leaves : Schema → List String → List RequiredLeaf
unfolding required_leaves sort_leaves
unconditionally_required_leaves s written =
    sort_leaves (required_leaves s written (flatten_schema (some s)))
