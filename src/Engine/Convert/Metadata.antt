-- ===== src/Engine/Convert/Metadata.antt =====
-- pkg/engine/convert.go and path.go: the metadata of a converted object.
use declarative_conversion_o.Prelude.{
  String, ◌⊎◌, inl, inr, ◌≡◌, ◌≢◌, refl, if◌then◌else◌, Option, none, some, [], ◌==◌, arith,
}
use declarative_conversion_o.Prelude.Assoc.{lookup, insert, lookup-insert}
use declarative_conversion_o.Engine.Json.{Json, null, bool, str, num, arr, obj, Object, object}
use declarative_conversion_o.Engine.Path.{deep_copy_value}
use declarative_conversion_o.Engine.Runtime.{Runtime}
use declarative_conversion_o.Engine.Op
use declarative_conversion_o.Engine.Ops.RoundTrip.{copy_lem}
use declarative_conversion_o.Engine.Convert.{baseline, baseline_metadata, with_kind}

-- A field that is not there, or null.
abbrev pub IsAbsent : Option Json → Type 0
IsAbsent o = (o ≡ none) ⊎ (o ≡ some null)

-- A value is kept, and for one that is absent there is an empty map.
pub data KeptOrEmpty : Option Json → Json → Type 0 where
  kept : (v : Json) → v ≢ null → KeptOrEmpty (some v) v
  empty : {o : Option Json} → IsAbsent o → KeptOrEmpty o (object [])

kept_copy : (v : Json) → v ≢ null → KeptOrEmpty (some v) (deep_copy_value v)
kept_copy v ne = rw (copy_lem v) (kept v ne)

KeptOrEmpty-baseline : (o : Option Json) → KeptOrEmpty o (baseline_metadata o)
KeptOrEmpty-baseline none = empty (inl refl)
KeptOrEmpty-baseline (some null) = empty (inr refl)
KeptOrEmpty-baseline (some (bool b)) = kept_copy (bool b) (λ e. cc e)
KeptOrEmpty-baseline (some (str s)) = kept_copy (str s) (λ e. cc e)
KeptOrEmpty-baseline (some (num n)) = kept_copy (num n) (λ e. cc e)
KeptOrEmpty-baseline (some (arr vs)) = kept_copy (arr vs) (λ e. cc e)
KeptOrEmpty-baseline (some (obj fs)) = kept_copy (obj fs) (λ e. cc e)

lookup-with_kind :
    (k : String) (o : Option Json) → lookup k (with_kind o []) ≡ (if "kind" == k then o else none)
unfolding lookup insert
lookup-with_kind k none = ground arith
lookup-with_kind k (some v) = refl

-- Before any operation runs, the output has the metadata of the object, or an empty map where that
-- is missing or null, the kind of the object, if it has one, and nothing else.
pub baseline_lem :
    (root : Object) (k : String)
    → (md : Json) × KeptOrEmpty (lookup "metadata" root) md
      × (lookup k (baseline root)
          ≡ (if "metadata" == k then some md else if "kind" == k then lookup "kind" root else none))
unfolding baseline
baseline_lem root k = (
  baseline_metadata (lookup "metadata" root),
  KeptOrEmpty-baseline (lookup "metadata" root),
  rw (lookup-insert, lookup-with_kind) refl,
)
