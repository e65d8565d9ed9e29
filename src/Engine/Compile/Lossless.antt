-- ===== src/Engine/Compile/Lossless.antt =====
-- pkg/engine/compile.go: the verdicts of rules that compile without errors.
use declarative_conversion_o.Prelude.{
  ℕ, suc, ◌≡◌, refl, Bool, true, false, List, [], ◌∷◌, ◌++◌, inl, inr, arith, Bool-cases, Option,
  none, some, and-true, is_empty, All, All-append,
}
use declarative_conversion_o.Prelude.Assoc.{Map, lookup}
use declarative_conversion_o.Engine.Path.{path_string}
use declarative_conversion_o.Engine.Runtime.{Runtime}
use declarative_conversion_o.Engine.Schema.{Schema, LeafField, flatten_schema}
use declarative_conversion_o.Engine.Problem.{Problem, lossy_to_spoke, lossy_to_hub, no_when_path}
use declarative_conversion_o.Engine.Diagnostics.{
  Diagnostic, RuleResult, errorf, hub_side, spoke_side, LosslessVerdict, and_verdict,
}
use declarative_conversion_o.Engine.Rule.{
  Strategy, RuleParams, RuleWhen, UnmappedFieldPolicy, rule, Rules, no_rules, rule_and,
}
use declarative_conversion_o.Engine.Compile.Claims.{Resolved, is_claimed}
use declarative_conversion_o.Engine.Compile.Results.{
  check_acknowledged, apply_when, guard_with, result_of,
}
use declarative_conversion_o.Engine.Compile.Leftovers.{
  Built, is_warn, has_twin, scan_hub_leaf, scan_hub, scan_spoke_leaf, scan_spoke, add_passthrough,
  finish,
}
use declarative_conversion_o.Engine.Compile.Branches.{nothing_built}
use declarative_conversion_o.Engine.Compile.Covered.{clean, clean-append, not_clean}
use declarative_conversion_o.Engine.Compile.{
  log_of, record_rule, resolve, resolve_rule, resolve_rules, resolve_and_build_ops,
}

abbrev pub IsLossless : LosslessVerdict → Type 0
IsLossless v = (v.hub_to_spoke ≡ true) × (v.spoke_to_hub ≡ true)

-- The verdict, and the verdict in the result of every rule, report both directions as lossless.
abbrev pub AllLossless : Built → Type 0
AllLossless b = IsLossless b.lossless × All (λ (rr : RuleResult). IsLossless rr.lossless) b.results

-- No rule of the list acknowledges a loss.
abbrev pub NoneAcknowledged : Rules → Type 0
NoneAcknowledged no_rules = Unit
NoneAcknowledged (rule_and (rule strategy given ack source_index when) rs) =
    (ack ≡ false) × NoneAcknowledged rs

not_clean_error :
    (ds : List Diagnostic) (idx : ℕ) (p : Problem) → clean (ds ++ errorf idx p ∷ []) ≡ false
not_clean_error ds idx p = rw clean-append (ground arith)

first_clean : (ds es : List Diagnostic) → clean (ds ++ es) ≡ true → clean ds ≡ true
first_clean ds es h = (and-true (clean ds) (clean es) (rw clean-append at h)).0

last_clean : (ds es : List Diagnostic) → clean (ds ++ es) ≡ true → clean es ≡ true
last_clean ds es h = (and-true (clean ds) (clean es) (rw clean-append at h)).1

-- A verdict that nobody acknowledges is an error, unless it is lossless.
acknowledged_cases :
    (idx : ℕ) (r : Resolved)
    → clean (check_acknowledged idx false r).log.diags ≡ true
    → IsLossless r.lossless
unfolding check_acknowledged
acknowledged_cases idx r h = elim (Bool-cases r.lossless.hub_to_spoke) [
  | inl e ↦ elim (Bool-cases r.lossless.spoke_to_hub) [
    | inl f ↦ (e, f)
    | inr f ↦ cc (not_clean_error r.log.diags idx lossy_to_hub, rw (e, f) at h)
  ]
  | inr e ↦ elim (Bool-cases r.lossless.spoke_to_hub) [
    | inl f ↦ cc (not_clean_error r.log.diags idx lossy_to_spoke, rw (e, f) at h)
    | inr f ↦ cc (
      not_clean_error (r.log.diags ++ errorf idx lossy_to_spoke ∷ []) idx lossy_to_hub,
      rw (e, f) at h,
    )
  ]
]

guard_cases :
    (idx : ℕ) (w : RuleWhen) (ds : List Diagnostic) (r : Resolved)
    → clean (guard_with idx w ds r).log.diags ≡ true
    → (clean r.log.diags ≡ true) × ((guard_with idx w ds r).lossless ≡ r.lossless)
guard_cases idx w [] r h = (first_clean r.log.diags _ h, refl)
guard_cases idx w (d ∷ ds) r h = (first_clean r.log.diags _ h, refl)

when_cases :
    (idx : ℕ) (when : Option RuleWhen) (hub spoke : Schema) (r : Resolved)
    → clean (apply_when idx when hub spoke r).log.diags ≡ true
    → (clean r.log.diags ≡ true) × ((apply_when idx when hub spoke r).lossless ≡ r.lossless)
unfolding apply_when
when_cases idx none hub spoke r h = (h, refl)
when_cases idx (some w) hub spoke r h = elim (Bool-cases (is_empty w.path)) [
  | inl e ↦ cc (not_clean_error r.log.diags idx no_when_path, rw e at h)
  | inr e ↦ rw e (guard_cases idx w _ r (rw e at h))
]

checked_lossless :
    (idx : ℕ) (ack : Bool) (r : Resolved) → (check_acknowledged idx ack r).lossless ≡ r.lossless
unfolding check_acknowledged
checked_lossless idx ack r = refl

both : (v w : LosslessVerdict) → IsLossless v → IsLossless w → IsLossless (and_verdict v w)
both v w (a, b) (c, d) = (rw (a, c) refl, rw (b, d) refl)

module _ (rt : Runtime) (hub spoke : Schema) (policy : UnmappedFieldPolicy) (depth : ℕ) where
  rule_cases :
      (strategy : Strategy) (given : RuleParams) (source_index : ℕ) (when : Option RuleWhen)
      (idx : ℕ) (b : Built)
      → let b' =
          resolve_rule rt
            (rule strategy given false source_index when)
            idx
            hub
            spoke
            policy
            depth
            b in
        clean b'.diags ≡ true → AllLossless b → (clean b.diags ≡ true) × AllLossless b'
  unfolding resolve_rule record_rule result_of
  rule_cases strategy given source_index when idx b h (lossless, reported) =
      let r = resolve rt strategy given idx hub spoke policy depth (log_of b) in
      let own = last_clean b.diags _ h in
      let (checked, same) = when_cases idx when hub spoke (check_acknowledged idx false r) own in
      let fine = acknowledged_cases idx r checked in
      (
        first_clean b.diags _ h,
        (
          both b.lossless _ lossless (rw (same, checked_lossless idx false r) fine),
          All-append (λ (rr : RuleResult). IsLossless rr.lossless) b.results _ reported
              (rw (same, checked_lossless idx false r) fine, tt),
        ),
      )

  rules_clean :
      (rules : Rules) (idx : ℕ) (b : Built)
      → clean (resolve_rules rt rules idx hub spoke policy depth b).diags ≡ true
      → clean b.diags ≡ true
  unfolding resolve_rules resolve_rule record_rule
  rules_clean no_rules idx b h = h
  rules_clean (rule_and (rule strategy given ack source_index when) rs) idx b h =
      first_clean b.diags _ (rules_clean rs (suc idx) _ h)

  rules_cases :
      (rules : Rules) (idx : ℕ) (b : Built)
      → NoneAcknowledged rules
      → clean (resolve_rules rt rules idx hub spoke policy depth b).diags ≡ true
      → AllLossless b
      → AllLossless (resolve_rules rt rules idx hub spoke policy depth b)
  unfolding resolve_rules
  rules_cases no_rules idx b none_ack h lossless = lossless
  rules_cases (rule_and (rule strategy given ack source_index when) rs) idx b (no_ack, rest) h
        lossless =
      let step =
        resolve_rule rt (rule strategy given ack source_index when) idx hub spoke policy depth b in
      let kept : AllLossless step =
        rw no_ack
          (rule_cases strategy given source_index when idx b
            (rw no_ack at (rules_clean rs (suc idx) step h)) lossless).1 in
      rules_cases rs (suc idx) step rest h kept

module _ (policy : UnmappedFieldPolicy) where
  scan_hub_leaf_lossless :
      (spokes : Map LeafField) (leaf : LeafField) (b : Built)
      → clean (scan_hub_leaf policy spokes leaf b).diags ≡ true
      → (clean b.diags ≡ true) × (AllLossless b → AllLossless (scan_hub_leaf policy spokes leaf b))
  unfolding scan_hub_leaf
  scan_hub_leaf_lossless spokes leaf b h =
      let key = path_string leaf.path in
      elim (Bool-cases (is_claimed b.claimed_hub key)) [
        | inl e ↦ rw e (rw e at h, λ l. l)
        | inr e ↦
            elim (Bool-cases (has_twin leaf (lookup key spokes) (is_claimed b.claimed_spoke key))) [
              | inl t ↦ rw (e, t) (rw (e, t) at h, λ l. l)
              | inr t ↦ elim (Bool-cases (is_warn policy)) [
                | inl w ↦
                    rw (e, t, w)
                      (first_clean b.diags _ (rw (e, t) at h), λ ((a, c), rs). ((rw a refl, c), rs))
                | inr w ↦
                    cc (not_clean policy hub_side key leaf.construct b.diags w, rw (e, t) at h)
              ]
            ]
      ]

  scan_hub_lossless :
      (spokes : Map LeafField) (leaves : List LeafField) (b : Built)
      → clean (scan_hub policy spokes leaves b).diags ≡ true
      → (clean b.diags ≡ true) × (AllLossless b → AllLossless (scan_hub policy spokes leaves b))
  unfolding scan_hub
  scan_hub_lossless spokes [] b h = (h, λ l. l)
  scan_hub_lossless spokes (leaf ∷ leaves) b h =
      let (fine, rest) = scan_hub_lossless spokes leaves (scan_hub_leaf policy spokes leaf b) h in
      let (before, step) = scan_hub_leaf_lossless spokes leaf b fine in (before, λ l. rest (step l))

  scan_spoke_leaf_lossless :
      (leaf : LeafField) (b : Built)
      → clean (scan_spoke_leaf policy leaf b).diags ≡ true
      → (clean b.diags ≡ true) × (AllLossless b → AllLossless (scan_spoke_leaf policy leaf b))
  unfolding scan_spoke_leaf
  scan_spoke_leaf_lossless leaf b h =
      let key = path_string leaf.path in
      elim (Bool-cases (is_claimed b.claimed_spoke key)) [
        | inl e ↦ rw e (rw e at h, λ l. l)
        | inr e ↦ elim (Bool-cases (is_warn policy)) [
          | inl w ↦
              rw (e, w) (first_clean b.diags _ (rw e at h), λ ((a, c), rs). ((a, rw c refl), rs))
          | inr w ↦ cc (not_clean policy spoke_side key leaf.construct b.diags w, rw e at h)
        ]
      ]

  scan_spoke_lossless :
      (leaves : List LeafField) (b : Built)
      → clean (scan_spoke policy leaves b).diags ≡ true
      → (clean b.diags ≡ true) × (AllLossless b → AllLossless (scan_spoke policy leaves b))
  unfolding scan_spoke
  scan_spoke_lossless [] b h = (h, λ l. l)
  scan_spoke_lossless (leaf ∷ leaves) b h =
      let (fine, rest) = scan_spoke_lossless leaves (scan_spoke_leaf policy leaf b) h in
      let (before, step) = scan_spoke_leaf_lossless leaf b fine in (before, λ l. rest (step l))

-- Rules of which none acknowledges a loss, and which compile without an error, get a verdict that
-- reports both directions as lossless, and so does the verdict of each rule in the report, whatever
-- the policy on fields that no rule accounts for.
pub resolve_and_build_ops-IsLossless :
    (rt : Runtime) (rules : Rules) (hub spoke : Schema) (policy : UnmappedFieldPolicy) (depth : ℕ)
    → NoneAcknowledged rules
    → clean (resolve_and_build_ops rt rules hub spoke policy depth).diags ≡ true
    → AllLossless (resolve_and_build_ops rt rules hub spoke policy depth)
unfolding resolve_and_build_ops finish add_passthrough
resolve_and_build_ops-IsLossless rt rules hub spoke policy depth no_ack h =
    let (scanned, spokes) = scan_spoke_lossless policy (flatten_schema (some spoke)) _ h in
    let (built, hubs) = scan_hub_lossless policy _ (flatten_schema (some hub)) _ scanned in
    spokes (
      hubs (
        rules_cases rt hub spoke policy depth rules 0 nothing_built no_ack built
          ((refl, refl), tt)))
