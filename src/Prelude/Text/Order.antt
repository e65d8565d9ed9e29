-- ===== src/Prelude/Text/Order.antt =====
-- Go's order of strings is a strict total order, and sorting forgets the order of a list.
use Prim.Native.Char.{code}
use Prim.Native.String.{String}
use text.Mathlib.TextEquality.{Char-path}
use mathlib.Core.Path.{◌≡◌, refl, ◌∙◌}
use mathlib.Core.Logic.{inl, inr}
use mathlib.Core.Bool.{true, false}
use mathlib.Core.List.{List, [], ◌∷◌, Permᴰ}
use native.Mathlib.Omega.{arith}
use declarative_conversion_o.Prelude.Tests.{Bool-cases}
use declarative_conversion_o.Prelude.Text.{str_ltb, insert_sorted, sort_strings}

pub str_ltb_trans : (s t u : String) → str_ltb s t ≡ true → str_ltb t u ≡ true → str_ltb s u ≡ true
unfolding str_ltb
str_ltb_trans s t String.[] h k = cc
str_ltb_trans s String.[] (String.◌∷◌ c u) h k = cc
str_ltb_trans String.[] (String.◌∷◌ d t) (String.◌∷◌ c u) h k = refl
str_ltb_trans (String.◌∷◌ e s) (String.◌∷◌ d t) (String.◌∷◌ c u) h k =
    ground (arith, str_ltb_trans s t u)

pub str_ltb_irrefl : (s : String) → str_ltb s s ≡ false
unfolding str_ltb
str_ltb_irrefl String.[] = refl
str_ltb_irrefl (String.◌∷◌ c s) = ground (arith, str_ltb_irrefl s)

-- Two names that do not precede each other are one.
pub str_ltb_total : (s t : String) → str_ltb s t ≡ false → str_ltb t s ≡ false → s ≡ t
unfolding str_ltb
str_ltb_total String.[] String.[] h k = refl
str_ltb_total String.[] (String.◌∷◌ d t) h k = cc
str_ltb_total (String.◌∷◌ c s) String.[] h k = cc
str_ltb_total (String.◌∷◌ c s) (String.◌∷◌ d t) h k =
    let same : code c ≡ code d = ground arith in
    let rest : s ≡ t = str_ltb_total s t (ground arith) (ground arith) in
    cc (Char-path c d same, rest)

pub str_ltb-neg_trans :
    (s t u : String) → str_ltb s t ≡ false → str_ltb t u ≡ false → str_ltb s u ≡ false
str_ltb-neg_trans s t u h k = elim (Bool-cases (str_ltb s u)) [
  | inr e ↦ e
  | inl e ↦ elim (Bool-cases (str_ltb t s)) [
    | inl f ↦ cc (str_ltb_trans t s u f e)
    | inr f ↦ cc (str_ltb_total s t h f)
  ]
]

pub str_ltb_asym : (s t : String) → str_ltb s t ≡ true → str_ltb t s ≡ false
str_ltb_asym s t h = elim (Bool-cases (str_ltb t s)) [
  | inr e ↦ e
  | inl e ↦ cc (str_ltb_trans s t s h e, str_ltb_irrefl s)
]

insert_sorted_comm :
    (a b : String) (l : List String)
    → insert_sorted a (insert_sorted b l) ≡ insert_sorted b (insert_sorted a l)
unfolding insert_sorted
insert_sorted_comm a b [] = ground (arith, str_ltb_asym a b, str_ltb_total a b)
insert_sorted_comm a b (t ∷ l) = ground (
  arith,
  insert_sorted_comm a b l,
  str_ltb-neg_trans t a b,
  str_ltb-neg_trans t b a,
  str_ltb_asym a b,
  str_ltb_total a b,
)

pub sort_strings-Perm : {l m : List String} → Permᴰ l m → sort_strings l ≡ sort_strings m
unfolding sort_strings
sort_strings-Perm Permᴰ.nil = refl
sort_strings-Perm (Permᴰ.trans p q) = sort_strings-Perm p ∙ sort_strings-Perm q
sort_strings-Perm (Permᴰ.cons e p) = cc (e, sort_strings-Perm p)
sort_strings-Perm (Permᴰ.swap {a} {b} {a'} {b'} {l} e e') =
    rw (e, e') (insert_sorted_comm b' a' (sort_strings l))
