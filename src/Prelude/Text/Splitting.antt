-- ===== src/Prelude/Text/Splitting.antt =====
-- Splitting what was joined with a separator of one character.
use Prim.Native.Char.{Char, code}
use Prim.Native.String.{String, ◌++◌}
use mathlib.Core.Path.{◌≡◌, refl, sym, ap, ◌∙◌}
use mathlib.Core.Logic.{◌≢◌, inl, inr}
use text.Mathlib.Text.{◌==◌}
use text.Mathlib.TextEquality.{eq_iff}
use mathlib.Core.Bool.{true, false}
use mathlib.Core.List.{List, [], ◌∷◌}
use native.Mathlib.Omega.{arith}
use text.Mathlib.TextLemmas.{cons≢nil, nil-append, cons-append, append_assoc, append-nil}
use declarative_conversion_o.Prelude.Tests.{nat_eq, if◌then◌else◌, Bool-cases}
use declarative_conversion_o.Prelude.Lists.{All}
use declarative_conversion_o.Prelude.Text.{has_prefix, split_from, split, join, single}

-- No character of the text is `c`.
abbrev pub Lacks : Char → String → Type 0
Lacks c String.[] = Unit
Lacks c (String.◌∷◌ d s) = (code d ≢ code c) × Lacks c s

-- One character of the text, with a separator of one character.
split_from-step :
    (c d : Char) (s cur : String)
    → split_from (single c) (String.◌∷◌ d s) cur 0 ≡ (
        if nat_eq (code d) (code c)
        then cur ∷ split_from (single c) s "" 0
        else split_from (single c) s (cur ++ single d) 0)
unfolding split_from has_prefix
split_from-step c d s cur = ground arith

-- A part without the separator is passed over.
split_from-part :
    (c : Char) (p rest cur : String)
    → Lacks c p
    → split_from (single c) (p ++ rest) cur 0 ≡ split_from (single c) rest (cur ++ p) 0
split_from-part c String.[] rest cur h = rw (nil-append, append-nil) refl
split_from-part c (String.◌∷◌ d p) rest cur (ne, h) =
    let shift : (cur ++ single d) ++ p ≡ cur ++ String.◌∷◌ d p =
      append_assoc cur (single d) p
      ∙ ap (λ t. cur ++ t) (cons-append d String.[] p ∙ ap (String.◌∷◌ d) (nil-append p)) in
    let stays : nat_eq (code d) (code c) ≡ false = ground arith in
    rw (cons-append, split_from-step, stays)
      (split_from-part c p rest (cur ++ single d) h
        ∙ ap (λ t. split_from (single c) rest t 0) shift)

split_from-hit :
    (c : Char) (rest cur : String)
    → split_from (single c) (single c ++ rest) cur 0 ≡ cur ∷ split_from (single c) rest "" 0
split_from-hit c rest cur =
    let hits : nat_eq (code c) (code c) ≡ true = ground arith in
    rw (cons-append, nil-append, split_from-step, hits) refl

split_from-join :
    (c : Char) (p : String) (ps : List String)
    → All (Lacks c) (p ∷ ps)
    → split_from (single c) (join (p ∷ ps) (single c)) "" 0 ≡ p ∷ ps
unfolding join
split_from-join c p [] (h, _) =
    ap (λ t. split_from (single c) t "" 0) (sym (append-nil p))
    ∙ split_from-part c p String.[] "" h
    ∙ (unfold split_from in ap (λ t. t ∷ []) (nil-append p))
split_from-join c p (q ∷ ps) (h, hs) =
    split_from-part c p (single c ++ join (q ∷ ps) (single c)) "" h
    ∙ split_from-hit c (join (q ∷ ps) (single c)) ("" ++ p)
    ∙ cc (nil-append p, split_from-join c q ps hs)

single_is_empty : (c : Char) → (single c == "") ≡ false
single_is_empty c = elim (Bool-cases (single c == "")) [
  | inr e ↦ e
  | inl e ↦ absurd (cons≢nil ((eq_iff (single c) "").0 e))
]

-- Parts that lack the separator come back, if there is any part.
pub split-join :
    (c : Char) (p : String) (ps : List String)
    → All (Lacks c) (p ∷ ps)
    → split (join (p ∷ ps) (single c)) (single c) ≡ p ∷ ps
unfolding split
split-join c p ps h = rw (single_is_empty c) (split_from-join c p ps h)
