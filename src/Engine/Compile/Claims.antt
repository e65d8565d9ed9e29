-- ===== src/Engine/Compile/Claims.antt =====
-- pkg/engine/compile.go: the paths that rules have claimed, what went wrong, and the outcome of a
-- rule.
use declarative_conversion_o.Prelude.{
  ℕ, String, Bool, Option, none, some, List, [], ◌∷◌, ◌++◌, ◌==◌, any, if◌then◌else◌,
}
use declarative_conversion_o.Prelude.Result.{Result, ok, err}
use declarative_conversion_o.Engine.Failure.{FieldPath}
use declarative_conversion_o.Engine.Path.{path_string}
use declarative_conversion_o.Engine.Kind.{FieldKind}
use declarative_conversion_o.Engine.Op.{Op}
use declarative_conversion_o.Engine.Schema.{
  Schema, LeafField, LookupError, classify, flatten_schema, lookup_path,
}
use declarative_conversion_o.Engine.Problem.{Problem, bad_path, already_claimed}
use declarative_conversion_o.Engine.Diagnostics.{Diagnostic, errorf, warnf, LosslessVerdict}

-- x |> f |> g, steps in their order
infixl 2 ◌|>◌
abbrev pub ◌|>◌ {ℓ κ} : {A : Type ℓ} {B : Type κ} → A → (A → B) → B
x |> f = f x

-- map[string]bool with nothing but true in it, as the list of its keys
abbrev pub Claimed : Type 0
Claimed = List String

abbrev pub is_claimed : Claimed → String → Bool
is_claimed set key = any (λ k. k == key) set

-- What a resolver changes: claimedHub, claimedSpoke, and the diagnostics of the rule so far.
pub record Log : Type 0 where
  pub claimed_hub : Claimed
  pub claimed_spoke : Claimed
  pub diags : List Diagnostic

-- What a resolver returns: the operations, nil where there is none, and the verdict.
pub record Resolved : Type 0 where
  pub to_spoke : Option Op
  pub to_hub : Option Op
  pub lossless : LosslessVerdict
  pub log : Log

abbrev pub resolved : Option Op → Option Op → LosslessVerdict → Log → Resolved
resolved to_spoke to_hub lossless log = record {
  to_spoke = to_spoke;
  to_hub = to_hub;
  lossless = lossless;
  log = log;
}

-- diags = append(diags, …)
abbrev pub add : List Diagnostic → Log → Log
add ds log = record log { diags = log.diags ++ ds }

abbrev pub add_error : ℕ → Problem → Log → Log
add_error idx problem log = add (errorf idx problem ∷ []) log

abbrev pub add_warning : ℕ → Problem → Log → Log
add_warning idx problem log = add (warnf idx problem ∷ []) log

abbrev pub add_error_if : Bool → ℕ → Problem → Log → Log
add_error_if b idx problem log = if b then add_error idx problem log else log

-- A claim, with the diagnostic if an earlier rule has the path.
unfoldable pub claim : Claimed → FieldPath → ℕ → String → Claimed × List Diagnostic
claim set path idx side =
    let key = path_string path in
    if is_claimed set key
    then (set, errorf idx (already_claimed side key) ∷ [])
    else (key ∷ set, [])

-- Two steps on a set of claims, with the diagnostics of both.
abbrev pub and_claim :
    Claimed × List Diagnostic → (Claimed → Claimed × List Diagnostic) → Claimed × List Diagnostic
and_claim (set, ds) step = let (set', more) = step set in (set', ds ++ more)

-- The leaf with an empty path is the prefix itself.
unfoldable pub claim_leaves :
    Claimed → FieldPath → List LeafField → ℕ → String → Claimed × List Diagnostic
unfolding claim
claim_leaves set prefix [] idx side = (set, [])
claim_leaves set prefix (leaf ∷ leaves) idx side =
    and_claim (claim_leaf leaf.path) (λ s. claim_leaves s prefix leaves idx side)
  where
    claim_leaf : FieldPath → Claimed × List Diagnostic
    claim_leaf [] = (set, [])
    claim_leaf (seg ∷ path) = claim set (prefix ++ seg ∷ path) idx side

-- claimSubtree; the node is nil where the path was not found.
unfoldable pub claim_subtree :
    Claimed → FieldPath → Option Schema → ℕ → String → Claimed × List Diagnostic
unfolding claim_leaves
claim_subtree set prefix none idx side = claim set prefix idx side
claim_subtree set prefix (some node) idx side =
    and_claim (claim set prefix idx side)
      (λ s. claim_leaves s prefix (flatten_schema (some node)) idx side)

abbrev on_hub : Claimed × List Diagnostic → Log → Log
on_hub (set, ds) log = record log { claimed_hub = set; diags = log.diags ++ ds }

abbrev on_spoke : Claimed × List Diagnostic → Log → Log
on_spoke (set, ds) log = record log { claimed_spoke = set; diags = log.diags ++ ds }

abbrev pub claim_hub_as : String → ℕ → FieldPath → Log → Log
claim_hub_as side idx path log = on_hub (claim log.claimed_hub path idx side) log

abbrev pub claim_spoke_as : String → ℕ → FieldPath → Log → Log
claim_spoke_as side idx path log = on_spoke (claim log.claimed_spoke path idx side) log

abbrev pub claim_hub : ℕ → FieldPath → Log → Log
claim_hub idx path log = claim_hub_as "hub" idx path log

abbrev pub claim_spoke : ℕ → FieldPath → Log → Log
claim_spoke idx path log = claim_spoke_as "spoke" idx path log

abbrev pub claim_hub_subtree : String → ℕ → FieldPath → Option Schema → Log → Log
claim_hub_subtree side idx path node log =
    on_hub (claim_subtree log.claimed_hub path node idx side) log

abbrev pub claim_spoke_subtree : String → ℕ → FieldPath → Option Schema → Log → Log
claim_spoke_subtree side idx path node log =
    on_spoke (claim_subtree log.claimed_spoke path node idx side) log

-- The node that a lookup finds, nil where it fails.
abbrev node_of : Result LookupError Schema → Option Schema
node_of (ok s) = some s
node_of (err e) = none

abbrev pub find : Schema → FieldPath → Option Schema
find root path = node_of (lookup_path root path)

abbrev failure_of : ℕ → String → String → Result LookupError Schema → List Diagnostic
failure_of idx strategy side (ok s) = []
failure_of idx strategy side (err e) = errorf idx (bad_path strategy side e) ∷ []

-- if _, err := lookupPath(root, path); err != nil { … }
abbrev pub check_path : ℕ → String → String → Schema → FieldPath → Log → Log
check_path idx strategy side root path log =
    add (failure_of idx strategy side (lookup_path root path)) log

-- The kind of a node, FieldKindUnknown where there is none.
abbrev pub kind_of : Option Schema → FieldKind
kind_of none = FieldKind.unknown
kind_of (some s) = (classify s).0

-- An error about the kind of a node that is there.
abbrev pub check_kind : Option Schema → (FieldKind → Bool) → ℕ → (FieldKind → Problem) → Log → Log
check_kind none good idx problem log = log
check_kind (some s) good idx problem log =
    if good (classify s).0 then log else add_error idx (problem (classify s).0) log
