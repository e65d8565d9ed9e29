-- ===== src/Prelude/Text.antt =====
-- What the program uses of Go's `strings`, `strconv` and `sort` on strings, over native text.
pub mod Splitting
pub mod Order
use Prim.Native.Nat.{ℕ, zero, suc, ◌-◌, ◌/◌, ◌%◌, ◌<◌}
use Prim.Native.Char.{Char, code}
use Prim.Native.String.{String, ◌++◌}
use mathlib.Core.Path.{◌≡◌, refl}
use mathlib.Core.Bool.{Bool, true, false, ◌&&◌, ◌||◌}
use mathlib.Core.List.{List, [], ◌∷◌}
use text.Mathlib.Text.{◌==◌}
use native.Mathlib.Omega.{arith}
use mathlib.Core.Logic.{inl, inr}
use declarative_conversion_o.Prelude.Tests.{ltb, nat_eq, if◌then◌else◌, Bool-cases}
use declarative_conversion_o.Prelude.Int.{ℤ, pos, negsuc}

-- s + t
abbrev pub append : String → String → String
append s t = s ++ t

-- strings.HasPrefix
unfoldable pub has_prefix : String → String → Bool
has_prefix s String.[] = true
has_prefix String.[] (String.◌∷◌ p ps) = false
has_prefix (String.◌∷◌ c s) (String.◌∷◌ p ps) = nat_eq (code c) (code p) && has_prefix s ps

abbrev pub size : String → ℕ
size String.[] = 0
size (String.◌∷◌ c s) = suc (size s)

abbrev pub single : Char → String
single c = String.◌∷◌ c String.[]

-- The rest of `strings.Split` from a position: `cur` is the part that has begun, and `skip` the
-- characters of a separator that are still to be passed over.
unfoldable pub split_from : String → String → String → ℕ → List String
split_from sep String.[] cur skip = cur ∷ []
split_from sep (String.◌∷◌ c s) cur (suc k) = split_from sep s cur k
split_from sep (String.◌∷◌ c s) cur zero =
    let hit = has_prefix (String.◌∷◌ c s) sep in
    let rest =
      split_from sep s (if hit then "" else cur ++ single c) (if hit then size sep - 1 else 0) in
    if hit then cur ∷ rest else rest

abbrev explode : String → List String
explode String.[] = []
explode (String.◌∷◌ c s) = single c ∷ explode s

-- strings.Split
unfoldable pub split : String → String → List String
unfolding split_from has_prefix
split s sep = if sep == "" then explode s else split_from sep s "" 0

-- strings.Join
unfoldable pub join : List String → String → String
join [] sep = ""
join (p ∷ []) sep = p
join (p ∷ q ∷ ps) sep = p ++ (sep ++ join (q ∷ ps) sep)

-- The order of Go strings. Bytes of UTF-8 compare as code points do.
unfoldable pub str_ltb : String → String → Bool
str_ltb s String.[] = false
str_ltb String.[] (String.◌∷◌ d t) = true
str_ltb (String.◌∷◌ c s) (String.◌∷◌ d t) =
    ltb (code c) (code d) || (nat_eq (code c) (code d) && str_ltb s t)

-- sort.Strings
unfoldable pub insert_sorted : String → List String → List String
insert_sorted s [] = s ∷ []
insert_sorted s (t ∷ ts) = if str_ltb t s then t ∷ insert_sorted s ts else s ∷ t ∷ ts

unfoldable pub sort_strings : List String → List String
unfolding insert_sorted str_ltb
sort_strings [] = []
sort_strings (s ∷ ss) = insert_sorted s (sort_strings ss)

-- strconv.FormatInt(_, 10): the digits of a number, the last one first in the loop.
digit : ℕ → String
digit n =
    if nat_eq n 0
    then "0"
    else if nat_eq n 1
    then "1"
    else if nat_eq n 2
    then "2"
    else if nat_eq n 3
    then "3"
    else if nat_eq n 4
    then "4"
    else if nat_eq n 5
    then "5"
    else if nat_eq n 6
    then "6"
    else if nat_eq n 7
    then "7"
    else if nat_eq n 8
    then "8"
    else "9"

digits_from : ℕ → ℕ → String → String
digits_from zero n out = out
digits_from (suc fuel) n out =
    let more = digits_from fuel (n / 10) (digit (n % 10) ++ out) in
    if ltb n 10 then digit n ++ out else more

-- Any fuel above the number gives the same digits, so that what `format_nat` takes is enough.
digits_from-enough :
    (fuel more n : ℕ) (out : String)
    → n < fuel
    → n < more
    → digits_from fuel n out ≡ digits_from more n out
unfolding digits_from
digits_from-enough zero more n out h k = absurd (omega (arith, h))
digits_from-enough (suc fuel) zero n out h k = absurd (omega (arith, k))
digits_from-enough (suc fuel) (suc more) n out h k = elim (Bool-cases (ltb n 10)) [
  | inl e ↦ rw e refl
  | inr e ↦
      rw e (
        digits_from-enough fuel more (n / 10) (digit (n % 10) ++ out) (ground arith) (ground arith))
]

unfoldable pub format_nat : ℕ → String
unfolding digits_from digit
format_nat n = digits_from (suc n) n ""

unfoldable pub format_int : ℤ → String
unfolding format_nat
format_int (pos n) = format_nat n
format_int (negsuc n) = "-" ++ format_nat (suc n)

-- strconv.FormatBool
abbrev pub format_bool : Bool → String
format_bool true = "true"
format_bool false = "false"

split_parts : split "a.b..c" "." ≡ "a" ∷ "b" ∷ "" ∷ "c" ∷ []
unfolding split
split_parts = refl

join_two : join ("a" ∷ "b" ∷ []) ", " ≡ "a, b"
unfolding join
join_two = refl

format_parts : (format_int (negsuc 119) ≡ "-120") × (format_int (pos 0) ≡ "0")
unfolding format_int
format_parts = (refl, refl)
