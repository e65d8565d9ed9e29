-- ===== src/Engine/Required/Guarantees.antt =====
-- pkg/engine/required.go: what it means that no finding is reported.
use mathlib.Core.List.{Memᴰ}
use mathlib.Core.Path.{subst}
use declarative_conversion_o.Prelude.{
  All-at, String, ◌≡◌, refl, ◌∙◌, sym, ap, ◌⊎◌, inl, inr, true, false, ◌&&◌, ◌||◌, some, List, [],
  ◌∷◌, ◌++◌, arith, ltb, Bool-cases, All, any, and-true, is_empty,
}
use declarative_conversion_o.Engine.Path.{path_string}
use declarative_conversion_o.Engine.Schema.{Schema, LeafField, flatten_schema}
use declarative_conversion_o.Engine.Rule.{Rules}
use declarative_conversion_o.Engine.Required.Carried.{IsCarried, carried_leaf}
use declarative_conversion_o.Engine.Diagnostics.{Diagnostic, RuleResult}
use declarative_conversion_o.Engine.Platform.{comes_before, insert_diagnostic, sort_diagnostics}
use declarative_conversion_o.Engine.Required.Leaves.{
  contains, RequiredLeaf, unconditionally_required_leaves,
}
use declarative_conversion_o.Engine.Required.{
  rank, DestSide, when_at, source_required, verdict_for_rule, Best, better, best_from, best_verdict,
  writers, all_dest_paths, judge, no_verdict, has_default, check_written, check_leaf, check_leaves,
  analyze_required_fields, always, unprovably, conditionally, never,
}
use declarative_conversion_o.Engine.Required.Supplied.{
  is_always, guarantees, IsGuaranteed, source_required-IsRequired, guarantees-WritesAlways,
}
use declarative_conversion_o.Engine.Required.Writers.{writers-Mem, unnamed, any-found}

is_empty-insert_diagnostic :
    (d : Diagnostic) (ds : List Diagnostic) → is_empty (insert_diagnostic d ds) ≡ false
unfolding insert_diagnostic
is_empty-insert_diagnostic d [] = refl
is_empty-insert_diagnostic d (e ∷ es) = elim (Bool-cases (comes_before e d)) [
  | inl b ↦ rw b refl
  | inr b ↦ rw b refl
]

is_empty-sort_diagnostics : (ds : List Diagnostic) → is_empty (sort_diagnostics ds) ≡ is_empty ds
unfolding sort_diagnostics
is_empty-sort_diagnostics [] = refl
is_empty-sort_diagnostics (d ∷ ds) = is_empty-insert_diagnostic d (sort_diagnostics ds)

is_empty-append : (ds es : List Diagnostic) → is_empty (ds ++ es) ≡ (is_empty ds && is_empty es)
is_empty-append [] es = refl
is_empty-append (d ∷ ds) es = refl

module _ (rules : Rules) (required : List String) (side : DestSide) where
  better-always :
      (rr : RuleResult) (best : Best)
      → is_always (better rr (verdict_for_rule (when_at rules rr.index) rr required side) best).0
        ≡ (is_always best.0 || guarantees rules required side rr)
  better-always rr best =
      let verdict = (verdict_for_rule (when_at rules rr.index) rr required side).0 in
      elim (Bool-cases (ltb (rank verdict) (rank best.0))) [
        | inl e ↦ rw e (ground (arith, e))
        | inr e ↦ rw e (ground (arith, e))
      ]

  best_from-always :
      (rrs : List RuleResult) (best : Best)
      → is_always (best_from rules required side rrs best).0
        ≡ (is_always best.0 || any (guarantees rules required side) rrs)
  unfolding best_from
  best_from-always [] best = ground arith
  best_from-always (rr ∷ rrs) best =
      best_from-always rrs _ ∙ rw (better-always rr best) (ground arith)

  judge-always :
      (path : String) (best : Best)
      → is_empty (judge side path best) ≡ true
      → is_always best.0 ≡ true
  judge-always path (always, why, index) h = refl
  judge-always path (unprovably, why, index) h = cc h
  judge-always path (conditionally, why, index) h = cc h
  judge-always path (never, why, index) h = cc h

  -- What the check of one leaf leaves open, in its own terms.
  abbrev Passes : List RuleResult → RequiredLeaf → Type 0
  Passes results l =
      let path = path_string l.leaf.path in
      (has_default l.leaf.node ≡ true)
      ⊎ ((is_empty (writers side path results) && contains required path) ≡ true)
      ⊎ (any (guarantees rules required side) (writers side path results) ≡ true)

  check_written-Passes :
      (l : RequiredLeaf) (path : String) (rrs : List RuleResult)
      → is_empty (check_written rules required side l path rrs) ≡ true
      → ((is_empty rrs && contains required path) ≡ true)
        ⊎ (any (guarantees rules required side) rrs ≡ true)
  unfolding best_verdict
  check_written-Passes l path [] h = elim (Bool-cases (contains required path)) [
    | inl e ↦ inl e
    | inr e ↦ elim (Bool-cases l.ancestor_written_wholesale) [
      | inl w ↦ cc (rw (e, w) at h)
      | inr w ↦ cc (rw (e, w) at h)
    ]
  ]
  check_written-Passes l path (rr ∷ rrs) h = inr (
      sym (best_from-always (rr ∷ rrs) no_verdict)
      ∙ judge-always path (best_verdict rules required side (rr ∷ rrs)) h)

  check_leaves-Passes :
      (results : List RuleResult) (ls : List RequiredLeaf)
      → is_empty (check_leaves rules results required side ls) ≡ true
      → All (Passes results) ls
  unfolding check_leaves check_leaf
  check_leaves-Passes results [] h = tt
  check_leaves-Passes results (l ∷ ls) h =
      let (here, rest) =
        and-true (is_empty (check_leaf rules results required side l))
          (is_empty (check_leaves rules results required side ls))
          (sym (
              is_empty-append (check_leaf rules results required side l)
                (check_leaves rules results required side ls))
            ∙ h) in
      (
        elim (Bool-cases (has_default l.leaf.node)) [
          | inl e ↦ inl e
          | inr e ↦ inr (check_written-Passes l (path_string l.leaf.path) _ (rw e at here))
        ],
        check_leaves-Passes results ls rest,
      )

module _ (rules : Rules) (source : Schema) (results : List RuleResult) (side : DestSide) where
  Passes-IsGuaranteed :
      (l : RequiredLeaf)
      → Passes rules (source_required (flatten_schema (some source))) side results l
      → IsGuaranteed rules source results side l.leaf
  Passes-IsGuaranteed l (inl e) = inl e
  Passes-IsGuaranteed l (inr (inl e)) =
      let path = path_string l.leaf.path in
      let required = source_required (flatten_schema (some source)) in
      let (empty, found) =
        and-true (is_empty (writers side path results)) (contains required path) e in
      inr (
        inl (
          unnamed side path results empty,
          source_required-IsRequired source path (flatten_schema (some source)) (λ k m. m) found,
        ))
  Passes-IsGuaranteed l (inr (inr e)) =
      let path = path_string l.leaf.path in
      let required = source_required (flatten_schema (some source)) in
      let (by, m, q) = any-found (guarantees rules required side) (writers side path results) e in
      let (is_result, has_path) = writers-Mem side path results by m in
      inr (
        inr (record {
          by = by;
          is_result = is_result;
          has_path = has_path;
          always_writes = guarantees-WritesAlways source side by rules q;
        }))

-- Where the check of required fields finds nothing for one direction, a required leaf of the
-- destination of which every object above it exists in what the conversion writes has a default, or
-- no result names it on that side and the source requires a leaf with its path, or a result names
-- it there whose rule has no condition and a predictable output, and that is of a constant or a
-- default, or has only required paths on the side of the source.
pub analyze_required_fields-IsGuaranteed :
    (dest source : Schema) (rules : Rules) (results : List RuleResult) (side : DestSide)
    (l : LeafField)
    → analyze_required_fields dest source rules results side ≡ []
    → Memᴰ l (flatten_schema (some dest))
    → l.required ≡ true
    → IsCarried side results [] dest l.path
    → IsGuaranteed rules source results side l
unfolding analyze_required_fields
analyze_required_fields-IsGuaranteed dest source rules results side l h member is_required carried =
    let required = source_required (flatten_schema (some source)) in
    let leaves = unconditionally_required_leaves dest (all_dest_paths side results) in
    let passes = check_leaves-Passes rules required side results leaves (
      sym (is_empty-sort_diagnostics (check_leaves rules results required side leaves))
      ∙ ap is_empty h) in
    let (k, same, m) = carried_leaf side results dest l member is_required carried in
    subst (IsGuaranteed rules source results side) same (
      Passes-IsGuaranteed rules source results side k
        (All-at (Passes rules required side results) k leaves m passes))
