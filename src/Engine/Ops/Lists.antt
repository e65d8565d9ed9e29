-- ===== src/Engine/Ops/Lists.antt =====
-- An array joined to a string and split into an array again.
use Prim.Native.Char.{Char}
use text.Mathlib.TextLemmas.{cons≢nil, cons-append, append-ne-nil_of_right_ne-nil}
use declarative_conversion_o.Prelude.{
  ℕ, suc, String, ◌≡◌, ◌≢◌, refl, sym, ap, ◌∙◌, some, if◌then◌else◌, List, [], ◌∷◌, map, ◌==◌,
  eq_iff, inl, inr, Bool-cases, All,
}
use declarative_conversion_o.Prelude.Text.{split, join, single}
use declarative_conversion_o.Prelude.Text.Splitting.{Lacks, split-join}
use declarative_conversion_o.Prelude.Result.{ok}
use declarative_conversion_o.Engine.Json.{str, array, as_array-array}
use declarative_conversion_o.Engine.Failure.{FieldPath}
use declarative_conversion_o.Engine.Path.{get_value}
use declarative_conversion_o.Engine.Kind.{FieldKind}
use declarative_conversion_o.Engine.Runtime.{Runtime}
use declarative_conversion_o.Engine.Coerce.{coerce_scalar_value}
use declarative_conversion_o.Engine.Op
use declarative_conversion_o.Engine.Op.{Context}
use declarative_conversion_o.Engine.Ops.Values.{
  join_parts, coerce_parts, apply_join_list, apply_split_list,
}
use declarative_conversion_o.Engine.Ops.Apply.{apply}
use declarative_conversion_o.Engine.Ops.RoundTrip.{get_value-write}

join-ne-empty :
    (c : Char) (p : String) (ps : List String) → (p ∷ ps) ≢ "" ∷ [] → join (p ∷ ps) (single c) ≢ ""
unfolding join
join-ne-empty c p [] ne e = ne (ap (λ t. t ∷ []) e)
join-ne-empty c p (q ∷ ps) ne e =
    append-ne-nil_of_right_ne-nil p (λ r. cons≢nil (sym (cons-append c String.[] _) ∙ r)) e

-- What the joined string is split into.
parts_back :
    (c : Char) (ss : List String)
    → All (Lacks c) ss
    → ss ≢ "" ∷ []
    → (if join ss (single c) == "" then [] else split (join ss (single c)) (single c)) ≡ ss
parts_back c [] h ne = unfold join in refl
parts_back c (p ∷ ps) h ne = elim (Bool-cases (join (p ∷ ps) (single c) == "")) [
  | inl e ↦ absurd (join-ne-empty c p ps ne ((eq_iff (join (p ∷ ps) (single c)) "").0 e))
  | inr e ↦ rw e (split-join c p ps h)
]

module _ (rt : Runtime) where
  join_parts-strings : (i : ℕ) (ss : List String) → join_parts rt i (map str ss) ≡ ok ss
  unfolding join_parts coerce_scalar_value
  join_parts-strings i [] = refl
  join_parts-strings i (s ∷ ss) = rw (join_parts-strings (suc i) ss) refl

  coerce_parts-strings :
      (i : ℕ) (ss : List String) → coerce_parts rt FieldKind.string i ss ≡ ok (map str ss)
  unfolding coerce_parts coerce_scalar_value
  coerce_parts-strings i [] = refl
  coerce_parts-strings i (s ∷ ss) = rw (coerce_parts-strings (suc i) ss) refl

  joined :
      (array_path string_path : FieldPath) (separator : String) (ss : List String) (ctx : Context)
      {d : Context}
      → get_value ctx.input array_path ≡ some (array (map str ss))
      → apply rt (Op.join_list array_path string_path separator) ctx ≡ ok d
      → get_value d.output string_path ≡ some (str (join ss separator))
  unfolding apply apply_join_list
  joined array_path string_path separator ss ctx found h =
      get_value-write ctx string_path _ (rw (found, as_array-array, join_parts-strings 0 ss) at h)

  -- The string operation's way back.
  split_back :
      (string_path array_path : FieldPath) (separator s : String) (ctx : Context) {d : Context}
      → get_value ctx.input string_path ≡ some (str s)
      → apply rt (Op.split_list string_path array_path separator FieldKind.string) ctx ≡ ok d
      → get_value d.output array_path
        ≡ some (array (map str (if s == "" then [] else split s separator)))
  unfolding apply apply_split_list
  split_back string_path array_path separator s ctx found h =
      get_value-write ctx array_path _
        (rw (found, coerce_parts-strings 0 (if s == "" then [] else split s separator)) at h)

  -- An array of strings joined with a one-character separator, which none of them has, and split
  -- again is the array that it was, unless it is the array of one empty string.
  pub join_split :
      (array_path string_path : FieldPath) (c : Char) (ss : List String) (c₁ c₂ : Context)
      {d₁ d₂ : Context}
      → All (Lacks c) ss
      → ss ≢ "" ∷ []
      → get_value c₁.input array_path ≡ some (array (map str ss))
      → apply rt (Op.join_list array_path string_path (single c)) c₁ ≡ ok d₁
      → c₂.input ≡ d₁.output
      → apply rt (Op.split_list string_path array_path (single c) FieldKind.string) c₂ ≡ ok d₂
      → get_value d₂.output array_path ≡ some (array (map str ss))
  join_split array_path string_path c ss c₁ c₂ lacks ne found there link back =
      split_back string_path array_path (single c) (join ss (single c)) c₂
        (rw link (joined array_path string_path (single c) ss c₁ found there)) back
      ∙ ap (λ l. some (array (map str l))) (parts_back c ss lacks ne)

  -- ListJoin and ListSplit turn the array of one empty string into the empty array.
  pub join_split_loses :
      (array_path string_path : FieldPath) (separator : String) (c₁ c₂ : Context) {d₁ d₂ : Context}
      → get_value c₁.input array_path ≡ some (array (str "" ∷ []))
      → apply rt (Op.join_list array_path string_path separator) c₁ ≡ ok d₁
      → c₂.input ≡ d₁.output
      → apply rt (Op.split_list string_path array_path separator FieldKind.string) c₂ ≡ ok d₂
      → get_value d₂.output array_path ≡ some (array [])
  unfolding join
  join_split_loses array_path string_path separator c₁ c₂ found there link back =
      split_back string_path array_path separator "" c₂
        (rw link (joined array_path string_path separator ("" ∷ []) c₁ found there)) back
