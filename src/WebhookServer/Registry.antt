-- ===== src/WebhookServer/Registry.antt =====
-- internal/webhookserver/registry.go: the compiled plans that a replica serves. The map is swapped
-- whole under the writers' lock, so that a reader sees it before a write or after it: a write is one
-- step from one registry to the next.
use declarative_conversion_o.Prelude.{
  ℕ, String, ◌≡◌, refl, Option, none, some, List, [], ◌∷◌, length, inl, inr, ◌==◌, eq_iff,
  if◌then◌else◌, Option-cases, Bool-cases, is_some, and_then,
}
use declarative_conversion_o.Prelude.Assoc.{
  Map, lookup, insert, remove, lookup-insert, lookup-remove,
}
use declarative_conversion_o.Engine.Convert.{Router}
use declarative_conversion_o.Engine.Diagnostics.{LosslessVerdict}

-- The messages of failures that a reconciliation records, one constructor each; `no_error` is the
-- empty text.
pub data CompileError : Type 0 where
  no_error : CompileError
  target_not_found : (kind name : String) → CompileError
  invalid_rule_configuration analysis_failed : String → CompileError
  validation_errors : CompileError

-- Times are numbers; the zero time is 0.
pub record CompiledEntry : Type 0 where
  pub router : Option Router
  pub conversion_review_versions : List String
  pub lossless : Map LosslessVerdict
  pub plan_hash : String
  pub compiled_at : ℕ
  pub last_error : CompileError
  pub last_error_at : ℕ

-- var updated CompiledEntry
abbrev zero_entry : CompiledEntry
zero_entry = record {
  router = none;
  conversion_review_versions = [];
  lossless = [];
  plan_hash = "";
  compiled_at = 0;
  last_error = no_error;
  last_error_at = 0;
}

-- map[string]*CompiledEntry, where `some none` is an entry that is nil
abbrev pub Registry : Type 0
Registry = Map (Option CompiledEntry)

abbrev pub new_registry : Registry
new_registry = []

-- (*Registry).Get
unfoldable pub get : Registry → String → Option (Option CompiledEntry)
get r name = lookup name r

-- (*Registry).Set
unfoldable pub set : Registry → String → Option CompiledEntry → Registry
set r name entry = insert name entry r

-- *existing, or the zero entry for a nil or a missing one
abbrev existing : Option (Option CompiledEntry) → CompiledEntry
existing (some (some e)) = e
existing _ = zero_entry

-- (*Registry).RecordError, at a time
unfoldable pub record_error : Registry → String → CompileError → ℕ → Registry
record_error r name msg now =
    insert name (some (record (existing (lookup name r)) { last_error = msg; last_error_at = now }))
      r

-- (*Registry).Remove
unfoldable pub remove_entry : Registry → String → Registry
remove_entry r name = if is_some (lookup name r) then remove name r else r

-- (*Registry).Len
unfoldable pub len : Registry → ℕ
len r = length r

abbrev pub entry_router : Option CompiledEntry → Option Router
entry_router none = none
entry_router (some e) = e.router

-- The router that serves a target: what a request for it finds.
unfoldable pub router_for : Registry → String → Option Router
unfolding get
router_for r name = and_then (get r name) entry_router

-- One write of the reconciler.
pub data Write : Type 0 where
  installs : String → CompiledEntry → Write
  fails : String → CompileError → ℕ → Write
  drops : String → Write

unfoldable pub write : Registry → Write → Registry
write r (installs name e) = set r name (some e)
write r (fails name msg now) = record_error r name msg now
write r (drops name) = remove_entry r name

unfoldable pub write_all : Registry → List Write → Registry
unfolding write
write_all r [] = r
write_all r (w ∷ ws) = write_all (write r w) ws

-- What the comments promise of a target: the router of the last entry installed, which a failure
-- leaves alone and a removal takes away.
abbrev pub promised : String → Option Router → List Write → Option Router
promised asked o [] = o
promised asked o (installs name e ∷ ws) = promised asked (if name == asked then e.router else o) ws
promised asked o (fails name msg now ∷ ws) = promised asked o ws
promised asked o (drops name ∷ ws) = promised asked (if name == asked then none else o) ws

pub router_for-set :
    (r : Registry) (name asked : String) (e : CompiledEntry)
    → router_for (set r name (some e)) asked
      ≡ (if name == asked then e.router else router_for r asked)
unfolding router_for get set
router_for-set r name asked e = elim (Bool-cases (name == asked)) [
  | inl h ↦ rw (lookup-insert name asked (some e) r, h) refl
  | inr h ↦ rw (lookup-insert name asked (some e) r, h) refl
]

existing-router :
    (o : Option (Option CompiledEntry)) → (existing o).router ≡ and_then o entry_router
existing-router none = refl
existing-router (some none) = refl
existing-router (some (some e)) = refl

-- A recorded error changes no router, whatever the registry holds and whichever name fails.
pub router_for-record_error :
    (r : Registry) (name asked : String) (msg : CompileError) (now : ℕ)
    → router_for (record_error r name msg now) asked ≡ router_for r asked
unfolding router_for get record_error
router_for-record_error r name asked msg now = elim (Bool-cases (name == asked)) [
  | inl h ↦ rw (lookup-insert, h, ← (eq_iff name asked).0 h) (existing-router (lookup name r))
  | inr h ↦ rw (lookup-insert, h) refl
]

pub router_for-remove_entry :
    (r : Registry) (name asked : String)
    → router_for (remove_entry r name) asked ≡ (if name == asked then none else router_for r asked)
unfolding router_for get remove_entry
router_for-remove_entry r name asked = elim (Option-cases (lookup name r)) [
  | inl gone ↦ elim (Bool-cases (name == asked)) [
    | inl h ↦ rw (gone, h, ← (eq_iff name asked).0 h, gone) refl
    | inr h ↦ rw (gone, h) refl
  ]
  | inr (e, held) ↦ elim (Bool-cases (name == asked)) [
    | inl h ↦ rw (held, lookup-remove, h) refl
    | inr h ↦ rw (held, lookup-remove, h) refl
  ]
]

-- Whatever entries are installed, fail to compile and are removed, in whatever order, a request for
-- a target finds the promised router.
pub write_all-promised :
    (r : Registry) (ws : List Write) (asked : String)
    → router_for (write_all r ws) asked ≡ promised asked (router_for r asked) ws
unfolding write_all write
write_all-promised r [] asked = refl
write_all-promised r (installs name e ∷ ws) asked =
    rw (write_all-promised (set r name (some e)) ws asked, router_for-set) refl
write_all-promised r (fails name msg now ∷ ws) asked =
    rw (write_all-promised (record_error r name msg now) ws asked, router_for-record_error) refl
write_all-promised r (drops name ∷ ws) asked =
    rw (write_all-promised (remove_entry r name) ws asked, router_for-remove_entry) refl
