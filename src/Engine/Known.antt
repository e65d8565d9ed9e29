-- ===== src/Engine/Known.antt =====
-- pkg/engine/passthrough.go: the tree of declared keys, and the fields that it does not declare.
use declarative_conversion_o.Prelude.{
  String, Bool, true, false, Option, none, some, List, [], ◌∷◌, ◌++◌, if◌then◌else◌,
}
use declarative_conversion_o.Prelude.Assoc.{Map, lookup, insert}
use declarative_conversion_o.Engine.Json.{Json, obj, Fields, end, field}
use declarative_conversion_o.Engine.Failure.{FieldPath}

mutual
  pub data KnownTree : Type 0 where
    node : Children → KnownTree

  pub data Children : Type 0 where
    no_children : Children
    child : String → KnownTree → Children → Children

unfoldable pub child_map : Children → Map KnownTree
child_map no_children = []
child_map (child k t cs) = (k, t) ∷ child_map cs

unfoldable pub of_child_map : Map KnownTree → Children
of_child_map [] = no_children
of_child_map ((k, t) ∷ m) = child k t (of_child_map m)

-- t.children
abbrev pub children : KnownTree → Map KnownTree
children (node cs) = child_map cs

abbrev pub leaf : KnownTree
leaf = node no_children

abbrev pub is_leaf : KnownTree → Bool
is_leaf (node no_children) = true
is_leaf (node (child k t cs)) = false

-- merged.children[k] = merge(merged.children[k], cb), or cb where there is none
abbrev merged_child : (KnownTree → KnownTree) → KnownTree → Option KnownTree → KnownTree
merged_child merge t none = t
merged_child merge t (some ca) = merge ca

mutual
  pub merge_known_trees : KnownTree → KnownTree → KnownTree
  merge_known_trees a (node no_children) = leaf
  merge_known_trees a (node (child k t cs)) =
      if is_leaf a then leaf else node (of_child_map (merge_children (children a) (child k t cs)))

  merge_children : Map KnownTree → Children → Map KnownTree
  merge_children merged no_children = merged
  merge_children merged (child k cb cs) =
      merge_children
        (insert k (merged_child (λ ca. merge_known_trees ca cb) cb (lookup k merged)) merged) cs

-- What one key of the source contributes: `rec` goes on below a key that the tree knows.
field_unknown :
    Option KnownTree
    → FieldPath
    → String
    → Json
    → (KnownTree → List (FieldPath × Json))
    → List (FieldPath × Json)
field_unknown none [] k v rec = []
field_unknown none (s ∷ p) k v rec = ((s ∷ p) ++ k ∷ [], v) ∷ []
field_unknown (some c) prefix k v rec = if is_leaf c then [] else rec c

-- `collectUnknown`, with the calls of `emit` as a list.
unfoldable mutual
  unfolding field_unknown

  pub collect_unknown : KnownTree → Json → FieldPath → List (FieldPath × Json)
  collect_unknown t (obj fs) prefix = collect_fields t fs prefix
  collect_unknown t _ prefix = []

  pub collect_fields : KnownTree → Fields → FieldPath → List (FieldPath × Json)
  collect_fields t end prefix = []
  collect_fields t (field k v fs) prefix =
      field_unknown (lookup k (children t)) prefix k v (λ c. collect_unknown c v (prefix ++ k ∷ []))
      ++ collect_fields t fs prefix
