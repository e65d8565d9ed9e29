-- ===== src/Engine/Compile/Identical.antt =====
-- pkg/engine/compile.go: what the scan of the leaves of the hub claims beside the rules.
use mathlib.Core.List.{Memᴰ}
use declarative_conversion_o.Prelude.{
  String, ◌≡◌, refl, sym, ap, ◌∙◌, ◌⊎◌, inl, inr, Bool, true, false, ◌&&◌, not, Option, none, some,
  List, [], ◌∷◌, arith, ◌==◌, eq_iff, Bool-cases, and-true, if◌then◌else◌,
}
use declarative_conversion_o.Prelude.Assoc.{Map, lookup, insert, lookup-insert}
use declarative_conversion_o.Engine.Path.{path_string}
use declarative_conversion_o.Engine.Kind.{FieldKind, kind_name}
use declarative_conversion_o.Engine.Schema.{LeafField}
use declarative_conversion_o.Engine.Rule.{UnmappedFieldPolicy}
use declarative_conversion_o.Engine.Compile.Claims.{Claimed, is_claimed}
use declarative_conversion_o.Engine.Compile.Leftovers.{
  Built, by_path, same_bool, same_shape, has_twin, scan_hub_leaf, scan_hub,
}

-- The hub and the spoke both have a leaf at the path, of one kind, and both of them are opaque or
-- neither is, with the same construct.
pub record IsIdentical (hubs spokes : List LeafField) (key : String) : Type 0 where
  pub hub_leaf : LeafField
  pub spoke_leaf : LeafField
  pub on_hub : Memᴰ hub_leaf hubs
  pub on_spoke : Memᴰ spoke_leaf spokes
  pub hub_path : path_string hub_leaf.path ≡ key
  pub spoke_path : path_string spoke_leaf.path ≡ key
  pub same_kind : spoke_leaf.kind ≡ hub_leaf.kind
  pub same_opacity : spoke_leaf.is_opaque ≡ hub_leaf.is_opaque
  pub same_construct : spoke_leaf.construct ≡ hub_leaf.construct

abbrev kind_named : String → FieldKind
kind_named name =
    if name == "string"
    then FieldKind.string
    else if name == "integer"
    then FieldKind.integer
    else if name == "number"
    then FieldKind.number
    else if name == "boolean"
    then FieldKind.boolean
    else if name == "array"
    then FieldKind.array
    else if name == "object"
    then FieldKind.object
    else FieldKind.unknown

kind_named-kind_name : (k : FieldKind) → kind_named (kind_name k) ≡ k
kind_named-kind_name FieldKind.string = refl
kind_named-kind_name FieldKind.integer = refl
kind_named-kind_name FieldKind.number = refl
kind_named-kind_name FieldKind.boolean = refl
kind_named-kind_name FieldKind.array = refl
kind_named-kind_name FieldKind.object = refl
kind_named-kind_name FieldKind.unknown = refl

kind_name-injective : (j k : FieldKind) → kind_name j ≡ kind_name k → j ≡ k
kind_name-injective j k e = sym (kind_named-kind_name j) ∙ ap kind_named e ∙ kind_named-kind_name k

same_bool-equal : (a b : Bool) → same_bool a b ≡ true → a ≡ b
same_bool-equal true b h = sym h
same_bool-equal false true h = cc h
same_bool-equal false false h = refl

same_shape-equal :
    (a b : LeafField)
    → same_shape a b ≡ true
    → (a.kind ≡ b.kind) × (a.is_opaque ≡ b.is_opaque) × (a.construct ≡ b.construct)
same_shape-equal a b h =
    let (first, construct) =
      and-true (kind_name a.kind == kind_name b.kind && same_bool a.is_opaque b.is_opaque)
        (a.construct == b.construct) h in
    let (kind, opaque) =
      and-true (kind_name a.kind == kind_name b.kind) (same_bool a.is_opaque b.is_opaque) first in
    (
      kind_name-injective a.kind b.kind ((eq_iff (kind_name a.kind) (kind_name b.kind)).0 kind),
      same_bool-equal a.is_opaque b.is_opaque opaque,
      (eq_iff a.construct b.construct).0 construct,
    )

-- What stands at a path is a leaf with that path.
by_path-found :
    (key : String) (leaves : List LeafField) (m : Map LeafField) {leaf : LeafField}
    → lookup key (by_path leaves m) ≡ some leaf
    → (Memᴰ leaf leaves × (path_string leaf.path ≡ key)) ⊎ (lookup key m ≡ some leaf)
unfolding by_path
by_path-found key [] m h = inr h
by_path-found key (l ∷ ls) m {leaf} h =
    elim (by_path-found key ls (insert (path_string l.path) l m) h) [
      | inl (member, at) ↦ inl (Memᴰ.tail member, at)
      | inr found ↦ elim (Bool-cases (path_string l.path == key)) [
        | inl e ↦
            let same : leaf ≡ l = cc (rw (lookup-insert, e) at found) in
            inl (Memᴰ.head same, ap (λ x. path_string x.path) same ∙ (eq_iff _ key).0 e)
        | inr e ↦ inr (rw (lookup-insert, e) at found)
      ]
    ]

module _ (hubs spokes : List LeafField) (rules : Built) where
  -- A path is claimed by the rules, or both schemas have the same leaf there.
  abbrev pub Accounted : Claimed → String → Type 0
  Accounted by_rules key = (is_claimed by_rules key ≡ true) ⊎ IsIdentical hubs spokes key

  -- Every claim is accounted for.
  abbrev AllAccounted : Claimed → Claimed → Type 0
  AllAccounted by_rules now = (key : String) → is_claimed now key ≡ true → Accounted by_rules key

  abbrev pub Traced : Built → Type 0
  Traced b =
      AllAccounted rules.claimed_hub b.claimed_hub
      × AllAccounted rules.claimed_spoke b.claimed_spoke

  one_more :
      (by_rules now : Claimed) (key : String)
      → IsIdentical hubs spokes key
      → AllAccounted by_rules now
      → AllAccounted by_rules (key ∷ now)
  one_more by_rules now key identical traced asked claimed = elim (Bool-cases (key == asked)) [
    | inl e ↦ inr (rw ((eq_iff key asked).0 e) at identical)
    | inr e ↦ traced asked (ground (arith, claimed))
  ]

  identical :
      (leaf : LeafField) (claimed : Bool) (found : Option LeafField)
      → Memᴰ leaf hubs
      → lookup (path_string leaf.path) (by_path spokes []) ≡ found
      → has_twin leaf found claimed ≡ true
      → IsIdentical hubs spokes (path_string leaf.path)
  unfolding lookup
  identical leaf claimed none member found twin = cc twin
  identical leaf claimed (some t) member found twin =
      let (_, shape) = and-true (not claimed) (same_shape t leaf) twin in
      let (kind, opaque, construct) = same_shape-equal t leaf shape in
      elim (by_path-found (path_string leaf.path) spokes [] found) [
        | inl (there, at) ↦ record {
          hub_leaf = leaf;
          spoke_leaf = t;
          on_hub = member;
          on_spoke = there;
          hub_path = refl;
          spoke_path = at;
          same_kind = kind;
          same_opacity = opaque;
          same_construct = construct;
        }
        | inr missing ↦ cc missing
      ]

  scan_hub_leaf-Traced :
      (policy : UnmappedFieldPolicy) (leaf : LeafField) (b : Built)
      → Memᴰ leaf hubs
      → Traced b
      → Traced (scan_hub_leaf policy (by_path spokes []) leaf b)
  unfolding scan_hub_leaf
  scan_hub_leaf-Traced policy leaf b member (on_hub, on_spoke) =
      let key = path_string leaf.path in
      let found = lookup key (by_path spokes []) in
      let claimed = is_claimed b.claimed_spoke key in
      elim (Bool-cases (is_claimed b.claimed_hub key)) [
        | inl e ↦ rw e (on_hub, on_spoke)
        | inr e ↦ elim (Bool-cases (has_twin leaf found claimed)) [
          | inl t ↦
              let same = identical leaf claimed found member refl t in
              rw (e, t)
                (
                  one_more rules.claimed_hub b.claimed_hub key same on_hub,
                  one_more rules.claimed_spoke b.claimed_spoke key same on_spoke,
                )
          | inr t ↦ rw (e, t) (on_hub, on_spoke)
        ]
      ]

  pub scan_hub-Traced :
      (policy : UnmappedFieldPolicy) (leaves : List LeafField) (b : Built)
      → ((leaf : LeafField) → Memᴰ leaf leaves → Memᴰ leaf hubs)
      → Traced b
      → Traced (scan_hub policy (by_path spokes []) leaves b)
  unfolding scan_hub
  scan_hub-Traced policy [] b inside traced = traced
  scan_hub-Traced policy (leaf ∷ leaves) b inside traced =
      scan_hub-Traced policy leaves _ (λ l m. inside l (Memᴰ.tail m))
        (scan_hub_leaf-Traced policy leaf b (inside leaf (Memᴰ.head refl)) traced)
