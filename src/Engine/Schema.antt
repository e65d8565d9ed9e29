-- ===== src/Engine/Schema.antt =====
-- pkg/engine/schema.go, and the tree of declared keys that pkg/engine/passthrough.go makes of a
-- schema.
pub mod Declared
use declarative_conversion_o.Prelude.{
  ℕ, String, Bool, true, false, ◌&&◌, ◌||◌, not, Option, none, some, List, [], ◌∷◌, ◌++◌, ◌==◌, any,
  if◌then◌else◌,
}
use declarative_conversion_o.Prelude.Int.{ℤ}
use declarative_conversion_o.Prelude.Result.{Result, ok, err}
use declarative_conversion_o.Engine.Failure.{FieldPath}
use declarative_conversion_o.Engine.Path.{last_segment}
use declarative_conversion_o.Engine.Kind.{FieldKind}
use declarative_conversion_o.Engine.Known.{KnownTree, Children, node, leaf, no_children, child}

-- What pkg/engine reads of an extv1.JSONSchemaProps beside its properties and the schema of its
-- items. `has_additional_properties` says that AdditionalProperties is there.
pub record Facts : Type 0 where
  pub kind : String
  pub required : List String
  pub has_additional_properties : Bool
  pub preserve_unknown_fields : Option Bool
  pub ref : Option String
  pub has_all_of : Bool
  pub has_one_of : Bool
  pub has_any_of : Bool
  pub max_items : Option ℤ
  pub has_default : Bool

mutual
  pub data Schema : Type 0 where
    schema : Facts → Element → Properties → Schema

  -- Items.Schema, where Items and its Schema are there
  pub data Element : Type 0 where
    no_element : Element
    element : Schema → Element

  -- map[string]JSONSchemaProps, in the order of one run's iteration
  pub data Properties : Type 0 where
    no_properties : Properties
    property : String → Schema → Properties → Properties

pub record LeafField : Type 0 where
  pub path : FieldPath
  pub kind : FieldKind
  pub node : Schema
  pub is_opaque : Bool
  pub construct : String
  pub required : Bool

abbrev is_true : Option Bool → Bool
is_true (some b) = b
is_true none = false

abbrev pub has_element : Element → Bool
has_element no_element = false
has_element (element s) = true

abbrev pub has_properties : Properties → Bool
has_properties no_properties = false
has_properties (property name s ps) = true

-- The kind of the node, and whether it is opaque.
unfoldable pub classify : Schema → FieldKind × Bool
classify (schema f e ps) =
    if is_true f.preserve_unknown_fields
    then (FieldKind.object, true)
    else if f.kind == "object"
    then (FieldKind.object, not (has_properties ps) && f.has_additional_properties)
    else if f.kind == "array"
    then (FieldKind.array, not (has_element e))
    else if f.kind == "string"
    then (FieldKind.string, false)
    else if f.kind == "integer"
    then (FieldKind.integer, false)
    else if f.kind == "number"
    then (FieldKind.number, false)
    else if f.kind == "boolean"
    then (FieldKind.boolean, false)
    else (FieldKind.unknown, true)

abbrev pub is_unknown : FieldKind → Bool
is_unknown FieldKind.unknown = true
is_unknown _ = false

abbrev pub is_object : FieldKind → Bool
is_object FieldKind.object = true
is_object _ = false

unfoldable pub is_structural_node : FieldKind → Bool → Bool
is_structural_node kind is_opaque = not is_opaque && not (is_unknown kind)

abbrev is_set : Option String → Bool
is_set none = false
is_set (some s) = not (s == "")

unfoldable pub unresolved_construct : Schema → String
unresolved_construct (schema f e ps) =
    if is_set f.ref then "$ref" else if f.has_all_of then "allOf" else ""

unfoldable pub union_construct : Schema → String
union_construct (schema f e ps) =
    if f.has_one_of then "oneOf" else if f.has_any_of then "anyOf" else ""

-- The leaf that the node itself is.
unfoldable pub leaf_of : Schema → FieldPath → List String → Bool → String → LeafField
unfolding classify
leaf_of s path required_set is_opaque construct = record {
  path = path;
  kind = (classify s).0;
  node = s;
  is_opaque = is_opaque;
  construct = construct;
  required = any (λ r. r == last_segment path) required_set;
}

-- The construct that keeps the node whole, "" if none does.
unfoldable pub whole_for : Schema → String
unfolding unresolved_construct union_construct is_structural_node
whole_for s =
    let c = unresolved_construct s in
    let u = union_construct s in
    if not (c == "")
    then c
    else if not (u == "") && not (is_structural_node (classify s).0 (classify s).1)
    then u
    else ""

-- The leaves of a node, given those of its properties.
unfoldable pub node_leaves : Schema → FieldPath → List String → List LeafField → List LeafField
unfolding whole_for leaf_of classify
node_leaves s path required_set below =
    if not (whole_for s == "")
    then leaf_of s path required_set true (whole_for s) ∷ []
    else if (classify s).1
    then leaf_of s path required_set true "" ∷ []
    else if is_object (classify s).0
    then below
    else leaf_of s path required_set false "" ∷ []

unfoldable mutual
  unfolding node_leaves

  -- flattenInto, with what it appends to `out` as a list
  pub flatten_into : Schema → FieldPath → List String → List LeafField
  flatten_into (schema f e ps) path required_set =
      node_leaves (schema f e ps) path required_set (flatten_properties ps path f.required)

  pub flatten_properties : Properties → FieldPath → List String → List LeafField
  flatten_properties no_properties path required_set = []
  flatten_properties (property name s ps) path required_set =
      flatten_into s (path ++ name ∷ []) required_set ++ flatten_properties ps path required_set

-- A nil schema has no leaves.
unfoldable pub flatten_schema : Option Schema → List LeafField
flatten_schema none = []
flatten_schema (some s) = flatten_into s [] []

-- The tree of a node, given the one of its properties, if it has any.
unfoldable pub node_tree : Schema → Bool → KnownTree → KnownTree
unfolding classify
node_tree s has_any below =
    if (classify s).1 || not (is_object (classify s).0) || not has_any then leaf else below

unfoldable mutual
  unfolding node_tree

  -- buildKnownTree
  pub build_known_tree : Schema → KnownTree
  build_known_tree (schema f e ps) =
      node_tree (schema f e ps) (has_properties ps) (node (build_children ps))

  pub build_children : Properties → Children
  build_children no_properties = no_children
  build_children (property name s ps) = child name (build_known_tree s) (build_children ps)

unfoldable pub property_of : String → Properties → Option Schema
property_of name no_properties = none
property_of name (property key s ps) = if key == name then some s else property_of name ps

abbrev pub properties_of : Schema → Properties
properties_of (schema f e ps) = ps

abbrev pub element_of : Schema → Option Schema
element_of (schema f no_element ps) = none
element_of (schema f (element s) ps) = some s

-- The errors of `lookupPath`: the path, the segment and where it was looked for.
pub data LookupError : Type 0 where
  no_properties_at : (path : FieldPath) (seg : String) (at : FieldPath) → LookupError
  field_not_found : (path : FieldPath) (seg : String) (at : FieldPath) → LookupError

-- One property, and the rest of the path below it.
abbrev step_into :
    FieldPath
    → String
    → FieldPath
    → Properties
    → Option Schema
    → (Schema → Result LookupError Schema)
    → Result LookupError Schema
step_into path seg at no_properties o rest = err (no_properties_at path seg at)
step_into path seg at (property key s ps) none rest = err (field_not_found path seg at)
step_into path seg at (property key s ps) (some next) rest = rest next

unfoldable pub lookup_from : FieldPath → FieldPath → Schema → FieldPath → Result LookupError Schema
unfolding property_of
lookup_from path at s [] = ok s
lookup_from path at s (seg ∷ segs) =
    step_into path seg at (properties_of s) (property_of seg (properties_of s))
      (λ next. lookup_from path (at ++ seg ∷ []) next segs)

-- lookupPath of a schema that is there
unfoldable pub lookup_path : Schema → FieldPath → Result LookupError Schema
unfolding lookup_from
lookup_path s path = lookup_from path [] s path
