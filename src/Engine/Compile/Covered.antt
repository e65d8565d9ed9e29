-- ===== src/Engine/Compile/Covered.antt =====
-- pkg/engine/compile.go: rules that compile without errors account for every field.
use declarative_conversion_o.Prelude.{
  ℕ, String, ◌≡◌, refl, ◌∙◌, Bool, true, false, not, ◌&&◌, List, [], ◌∷◌, ◌++◌, inl, inr, arith,
  Bool-cases, all, All, eq_refl, some,
}
use declarative_conversion_o.Prelude.Assoc.{Map, lookup}
use declarative_conversion_o.Engine.Path.{path_string}
use declarative_conversion_o.Engine.Runtime.{Runtime}
use declarative_conversion_o.Engine.Schema.{Schema, LeafField, flatten_schema}
use declarative_conversion_o.Engine.Diagnostics.{
  Diagnostic, is_severe, UncoveredSide, hub_side, spoke_side, uncovered_field_diag,
}
use declarative_conversion_o.Engine.Rule.{UnmappedFieldPolicy, Rules}
use declarative_conversion_o.Engine.Compile.Claims.{Claimed, is_claimed}
use declarative_conversion_o.Engine.Compile.Leftovers.{
  Built, is_warn, severity_of, has_twin, scan_hub_leaf, scan_hub, scan_spoke_leaf, scan_spoke,
  add_passthrough, finish, by_path,
}
use declarative_conversion_o.Engine.Compile.Identical.{Accounted, scan_hub-Traced}
use declarative_conversion_o.Engine.Compile.Branches.{nothing_built}
use declarative_conversion_o.Engine.Compile.{resolve_rules, resolve_and_build_ops}

-- No diagnostic is an error.
abbrev pub clean : List Diagnostic → Bool
clean ds = all (λ d. not (is_severe d.severity)) ds

pub clean-append : (ds es : List Diagnostic) → clean (ds ++ es) ≡ (clean ds && clean es)
clean-append [] es = refl
clean-append (d ∷ ds) es = ground (arith, clean-append ds es)

abbrev pub ClaimedIn : Claimed → LeafField → Type 0
ClaimedIn set leaf = is_claimed set (path_string leaf.path) ≡ true

pub not_clean :
    (policy : UnmappedFieldPolicy) (side : UncoveredSide) (path construct : String)
    (ds : List Diagnostic)
    → is_warn policy ≡ false
    → clean (ds ++ uncovered_field_diag (severity_of policy) side path construct ∷ []) ≡ false
not_clean policy side path construct ds strict = rw (clean-append, strict) (ground arith)

-- What a leaf of the hub comes to: it was claimed, it is covered now, or there is a diagnostic.
scan_hub_leaf_cases :
    (policy : UnmappedFieldPolicy) (spokes : Map LeafField) (leaf : LeafField) (b : Built)
    → is_warn policy ≡ false
    → clean (scan_hub_leaf policy spokes leaf b).diags ≡ true
    → (clean b.diags ≡ true)
      × ClaimedIn (scan_hub_leaf policy spokes leaf b).claimed_hub leaf
      × ((key : String)
          → is_claimed b.claimed_hub key ≡ true
          → is_claimed (scan_hub_leaf policy spokes leaf b).claimed_hub key ≡ true)
unfolding scan_hub_leaf
scan_hub_leaf_cases policy spokes leaf b strict h =
    let key = path_string leaf.path in
    elim (Bool-cases (is_claimed b.claimed_hub key)) [
      | inl e ↦ rw e (rw e at h, e, λ k c. c)
      | inr e ↦
          elim (Bool-cases (has_twin leaf (lookup key spokes) (is_claimed b.claimed_spoke key))) [
            | inl t ↦ rw (e, t) (rw (e, t) at h, rw eq_refl refl, λ k c. rw c (ground arith))
            | inr t ↦ cc (
              not_clean policy hub_side (path_string leaf.path) leaf.construct b.diags strict,
              rw (e, t) at h,
            )
          ]
    ]

All-map :
    {P Q : LeafField → Type 0}
    → ((l : LeafField) → P l → Q l)
    → (ls : List LeafField) → All P ls
    → All Q ls
All-map f [] h = tt
All-map f (l ∷ ls) (p, h) = (f l p, All-map f ls h)

module _ (policy : UnmappedFieldPolicy) (strict : is_warn policy ≡ false) where
  scan_hub_cases :
      (spokes : Map LeafField) (leaves : List LeafField) (b : Built)
      → clean (scan_hub policy spokes leaves b).diags ≡ true
      → All (ClaimedIn (scan_hub policy spokes leaves b).claimed_hub) leaves
        × ((key : String)
            → is_claimed b.claimed_hub key ≡ true
            → is_claimed (scan_hub policy spokes leaves b).claimed_hub key ≡ true)
        × (clean b.diags ≡ true)
  unfolding scan_hub
  scan_hub_cases spokes [] b h = (tt, λ key c. c, h)
  scan_hub_cases spokes (leaf ∷ leaves) b h =
      let (claimed, kept, fine) =
        scan_hub_cases spokes leaves (scan_hub_leaf policy spokes leaf b) h in
      let (before, here, grows) = scan_hub_leaf_cases policy spokes leaf b strict fine in
      ((kept (path_string leaf.path) here, claimed), λ key c. kept key (grows key c), before)

  scan_spoke_leaf_cases :
      (leaf : LeafField) (b : Built)
      → clean (scan_spoke_leaf policy leaf b).diags ≡ true
      → (scan_spoke_leaf policy leaf b ≡ b) × ClaimedIn b.claimed_spoke leaf
  unfolding scan_spoke_leaf
  scan_spoke_leaf_cases leaf b h =
      elim (Bool-cases (is_claimed b.claimed_spoke (path_string leaf.path))) [
        | inl e ↦ rw e (refl, refl)
        | inr e ↦ cc (
          not_clean policy spoke_side (path_string leaf.path) leaf.construct b.diags strict,
          rw e at h,
        )
      ]

  scan_spoke_cases :
      (leaves : List LeafField) (b : Built)
      → clean (scan_spoke policy leaves b).diags ≡ true
      → (scan_spoke policy leaves b ≡ b) × All (ClaimedIn b.claimed_spoke) leaves
  unfolding scan_spoke
  scan_spoke_cases [] b h = (refl, tt)
  scan_spoke_cases (leaf ∷ leaves) b h =
      let (rest, claimed) = scan_spoke_cases leaves (scan_spoke_leaf policy leaf b) h in
      let fine = rw rest at h in
      let (same, here) = scan_spoke_leaf_cases leaf b fine in
      (rest ∙ same, (here, rw same at claimed))

  -- Rules that compile without an error, under a policy other than Warn, account for every field:
  -- the path of each leaf of the hub, and of each leaf of the spoke, is claimed by one of the rules
  -- on that side, or both schemas have a leaf at it with the same kind, the same opacity and the
  -- same construct.
  pub resolve_and_build_ops-Claimed :
      (rt : Runtime) (rules : Rules) (hub spoke : Schema) (depth : ℕ)
      → clean (resolve_and_build_ops rt rules hub spoke policy depth).diags ≡ true
      → let hubs = flatten_schema (some hub) in
        let spokes = flatten_schema (some spoke) in
        let b = resolve_rules rt rules 0 hub spoke policy depth nothing_built in
        All (λ l. Accounted hubs spokes b b.claimed_hub (path_string l.path)) hubs
        × All (λ l. Accounted hubs spokes b b.claimed_spoke (path_string l.path)) spokes
  unfolding resolve_and_build_ops finish add_passthrough
  resolve_and_build_ops-Claimed rt rules hub spoke depth h =
      let hubs = flatten_schema (some hub) in
      let spokes = flatten_schema (some spoke) in
      let b = resolve_rules rt rules 0 hub spoke policy depth nothing_built in
      let scanned = scan_hub policy (by_path spokes []) hubs b in
      let (same, of_spokes) = scan_spoke_cases spokes scanned h in
      let (of_hubs, _, _) = scan_hub_cases (by_path spokes []) hubs b (rw same at h) in
      let (hub_traced, spoke_traced) =
        scan_hub-Traced hubs spokes b policy hubs b (λ l m. m) (λ k c. inl c, λ k c. inl c) in
      (
        All-map (λ l. hub_traced (path_string l.path)) hubs of_hubs,
        All-map (λ l. spoke_traced (path_string l.path)) spokes of_spokes,
      )
