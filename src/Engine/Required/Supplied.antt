-- ===== src/Engine/Required/Supplied.antt =====
-- pkg/engine/required.go: what it means that a rule always writes a field.
use mathlib.Core.List.{Memᴰ}
use declarative_conversion_o.Prelude.{
  ℕ, ◌≢◌, none, eq_iff, Option-cases, ◌==◌, String, ◌≡◌, refl, ◌⊎◌, inl, inr, Bool, true, some,
  List, [], ◌∷◌, arith, nat_eq, Bool-cases, All,
}
use declarative_conversion_o.Engine.Path.{path_string}
use declarative_conversion_o.Engine.Schema.{Schema, LeafField, flatten_schema}
use declarative_conversion_o.Engine.Rule.{Strategy, Rules, no_rules, rule_and, rule}
use declarative_conversion_o.Engine.Diagnostics.{RuleResult}
use declarative_conversion_o.Engine.Required.Leaves.{contains}
use declarative_conversion_o.Engine.Required.{
  Satisfaction, rank, dest_paths, source_paths, is_unprovable, is_produced, verdict_for_sources,
  DestSide, when_at, source_required, verdict_for_rule, has_default,
}

abbrev pub is_always : Satisfaction → Bool
is_always s = nat_eq (rank s) 0

-- The rule is judged always to write its paths.
abbrev pub guarantees : Rules → List String → DestSide → RuleResult → Bool
guarantees rules required side rr =
    is_always (verdict_for_rule (when_at rules rr.index) rr required side).0

-- The first rule with the index has no condition, if there is such a rule.
abbrev pub IsUnconditional : Rules → ℕ → Type 0
IsUnconditional no_rules index = Unit
IsUnconditional (rule_and (rule strategy args ack source_index condition) rules) index =
    ((source_index ≡ index) × (condition ≡ none))
    ⊎ ((source_index ≢ index) × IsUnconditional rules index)

-- A required leaf of the schema has the path.
pub record IsRequired (source : Schema) (path : String) : Type 0 where
  pub leaf : LeafField
  pub is_leaf : Memᴰ leaf (flatten_schema (some source))
  pub is_required : leaf.required ≡ true
  pub has_path : path_string leaf.path ≡ path

-- A rule without a condition and of predictable output, which is a constant or a default, or of
-- which every path on the side of the source is required there.
pub record WritesAlways (rules : Rules) (source : Schema) (side : DestSide) (rr : RuleResult)
    : Type 0 where
  pub unconditional : IsUnconditional rules rr.index
  pub not_cel : rr.strategy ≢ Strategy.cel
  pub not_patch : rr.strategy ≢ Strategy.json_patch
  pub not_split : rr.strategy ≢ Strategy.scalar_to_fields
  pub supplied :
      (rr.strategy ≡ Strategy.constant)
      ⊎ (rr.strategy ≡ Strategy.default_value)
      ⊎ All (IsRequired source) (source_paths side rr)

pub record Writer (rules : Rules) (source : Schema) (results : List RuleResult) (side : DestSide)
    (path : String) : Type 0 where
  pub by : RuleResult
  pub is_result : Memᴰ by results
  pub has_path : Memᴰ path (dest_paths side by)
  pub always_writes : WritesAlways rules source side by

-- A leaf has a default, or no result names it and the source requires it, or a result that names it
-- is of a rule that always writes it.
abbrev pub IsGuaranteed : Rules → Schema → List RuleResult → DestSide → LeafField → Type 0
IsGuaranteed rules source results side l =
    let path = path_string l.path in
    (has_default l.node ≡ true)
    ⊎ (All (λ rr. ¬ Memᴰ path (dest_paths side rr)) results × IsRequired source path)
    ⊎ Writer rules source results side path

when_at-none :
    (rules : Rules) (index : ℕ) → when_at rules index ≡ none → IsUnconditional rules index
unfolding when_at
when_at-none no_rules index h = tt
when_at-none (rule_and (rule strategy args ack source_index condition) rules) index h =
    elim (Bool-cases (nat_eq source_index index)) [
      | inl e ↦ inl (ground (arith, e), rw e at h)
      | inr e ↦ inr (λ same. ground (arith, e, same), when_at-none rules index (rw e at h))
    ]

pub source_required-IsRequired :
    (source : Schema) (path : String) (ls : List LeafField)
    → ((l : LeafField) → Memᴰ l ls → Memᴰ l (flatten_schema (some source)))
    → contains (source_required ls) path ≡ true
    → IsRequired source path
unfolding source_required
source_required-IsRequired source path [] inside h = cc h
source_required-IsRequired source path (l ∷ ls) inside h =
    let below = source_required-IsRequired source path ls (λ k m. inside k (Memᴰ.tail m)) in
    elim (Bool-cases l.required) [
      | inl e ↦ elim (Bool-cases (path_string l.path == path)) [
        | inl f ↦ record {
          leaf = l;
          is_leaf = inside l (Memᴰ.head refl);
          is_required = e;
          has_path = (eq_iff (path_string l.path) path).0 f;
        }
        | inr f ↦ below (rw (e, f) at h)
      ]
      | inr e ↦ below (rw e at h)
    ]

is_produced_cases :
    (s : Strategy) → is_produced s ≡ true → (s ≡ Strategy.constant) ⊎ (s ≡ Strategy.default_value)
is_produced_cases Strategy.constant h = inl refl
is_produced_cases Strategy.default_value h = inr refl
is_produced_cases _ h = cc h

module _ (source : Schema) (side : DestSide) (rr : RuleResult) where
  sources-IsRequired :
      (ss : List String)
      → is_always (verdict_for_sources rr (source_required (flatten_schema (some source))) ss).0
        ≡ true
      → All (IsRequired source) ss
  unfolding verdict_for_sources
  sources-IsRequired [] h = tt
  sources-IsRequired (s ∷ ss) h =
      elim (Bool-cases (contains (source_required (flatten_schema (some source))) s)) [
        | inl e ↦ (
          source_required-IsRequired source s (flatten_schema (some source)) (λ l m. m) e,
          sources-IsRequired ss (rw e at h),
        )
        | inr e ↦ cc (rw e at h)
      ]

  pub guarantees-WritesAlways :
      (rules : Rules)
      → guarantees rules (source_required (flatten_schema (some source))) side rr ≡ true
      → WritesAlways rules source side rr
  unfolding verdict_for_rule
  guarantees-WritesAlways rules h = elim (Option-cases (when_at rules rr.index)) [
    | inr (condition, e) ↦ cc (rw e at h)
    | inl e ↦ elim (Bool-cases (is_unprovable rr.strategy)) [
      | inl f ↦ cc (rw (e, f) at h)
      | inr f ↦ record {
        unconditional = when_at-none rules rr.index e;
        not_cel = λ same. cc (rw same at f);
        not_patch = λ same. cc (rw same at f);
        not_split = λ same. cc (rw same at f);
        supplied = elim (Bool-cases (is_produced rr.strategy)) [
          | inl g ↦ elim (is_produced_cases rr.strategy g) [ inl c ↦ inl c | inr d ↦ inr (inl d) ]
          | inr g ↦ inr (inr (sources-IsRequired (source_paths side rr) (rw (e, f, g) at h)))
        ];
      }
    ]
  ]
