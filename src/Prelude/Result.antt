-- ===== src/Prelude/Result.antt =====
-- Results of code that returns `(value, error)`, with `do` blocks.
use mathlib.Core.Path.{◌≡◌, refl, subst}
use mathlib.Core.Bool.{Bool, true, false}
use declarative_conversion_o.Prelude.Tests.{if◌then◌else◌}

pub data Result (E : Type 0) (A : Type 0) : Type 0 where
  ok : A → Result E A
  err : E → Result E A

infixl 5 ◌>>=◌ ◌>>◌
abbrev pub ◌>>=◌ : {E A B : Type 0} → Result E A → (A → Result E B) → Result E B
ok a >>= f = f a
err e >>= f = err e

abbrev pub ◌>>◌ : {E A B : Type 0} → Result E A → Result E B → Result E B
m >> k = m >>= λ _. k

-- `fmt.Errorf("...: %w", err)` on the error path.
abbrev pub map_err : {E F A : Type 0} → (E → F) → Result E A → Result F A
map_err f (ok a) = ok a
map_err f (err e) = err (f e)

pub bind-eq-ok :
    {E A B : Type 0} (m : Result E A) (f : A → Result E B) {b : B}
    → (m >>= f) ≡ ok b
    → (a : A) × (m ≡ ok a) × (f a ≡ ok b)
bind-eq-ok (ok a) f h = (a, refl, h)
bind-eq-ok (err e) f h = cc

pub map_err-eq-ok :
    {E F A : Type 0} (f : E → F) (m : Result E A) {a : A} → map_err f m ≡ ok a → m ≡ ok a
map_err-eq-ok f (ok a) h = cc
map_err-eq-ok f (err e) h = cc

-- Whatever `r` returns without an error satisfies `P`.
pub record Ensures {E A : Type 0} (P : A → Type 0) (r : Result E A) : Type 0 where
  pub at : (a : A) → r ≡ ok a → P a

module _ {E A : Type 0} {P : A → Type 0} where
  pub Ensures-ok : (a : A) → P a → Ensures {E = E} P (ok a)
  Ensures-ok a p = record { at = λ b h. let same : a ≡ b = cc in subst P same p }

  pub Ensures-err : (e : E) → Ensures P (err e)
  Ensures-err e = record { at = λ b h. absurd (cc h) }

  pub Ensures-bind :
      {B : Type 0} (m : Result E B) (f : B → Result E A)
      → ((b : B) → Ensures P (f b))
      → Ensures P (m >>= f)
  Ensures-bind (ok b) f h = h b
  Ensures-bind (err e) f h = Ensures-err e

  pub Ensures-seq :
      {B : Type 0} {Q : B → Type 0} (m : Result E B) (f : B → Result E A)
      → Ensures Q m
      → ((b : B) → Q b → Ensures P (f b))
      → Ensures P (m >>= f)
  Ensures-seq (ok b) f q h = h b (q.at b refl)
  Ensures-seq (err e) f q h = Ensures-err e

pub Ensures-map_err :
    {E F A : Type 0} {P : A → Type 0} (g : E → F) (m : Result E A)
    → Ensures P m
    → Ensures P (map_err g m)
Ensures-map_err g (ok a) h = Ensures-ok a (h.at a refl)
Ensures-map_err g (err e) h = Ensures-err (g e)

pub Ensures-if :
    {E A : Type 0} {P : A → Type 0} (b : Bool) (m n : Result E A)
    → Ensures P m
    → Ensures P n
    → Ensures P (if b then m else n)
Ensures-if true m n h k = h
Ensures-if false m n h k = k

pub ruleset ensures_rules = (Ensures-ok, Ensures-err, Ensures-bind, Ensures-map_err, Ensures-if)

pub ok-injective : {E A : Type 0} {a b : A} → ◌≡◌ {A = Result E A} (ok a) (ok b) → a ≡ b
ok-injective h = cc
