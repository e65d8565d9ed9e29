-- ===== src/Prelude/Int.antt =====
-- Signed integers over the native numbers, under the library's names.
use Prim.Native.Nat.{ℕ, suc, ◌+◌, ◌-◌, ◌*◌, ◌/◌, ◌%◌, ◌^◌}
use mathlib.Core.Bool.{Bool}
use declarative_conversion_o.Prelude.Tests.{ltb, leb, nat_eq, if◌then◌else◌}

-- `negsuc n` is -(n + 1).
pub data ℤ : Type 0 where
  pos : ℕ → ℤ
  negsuc : ℕ → ℤ

abbrev pub pos_part : ℤ → ℕ
pos_part (pos n) = n
pos_part (negsuc n) = 0

abbrev pub neg_part : ℤ → ℕ
neg_part (pos n) = 0
neg_part (negsuc n) = suc n

abbrev pub ltb_ℤ : ℤ → ℤ → Bool
ltb_ℤ a b = ltb (pos_part a + neg_part b) (pos_part b + neg_part a)

abbrev pub eq_ℤ : ℤ → ℤ → Bool
eq_ℤ a b = nat_eq (pos_part a + neg_part b) (pos_part b + neg_part a)

-- -n
abbrev pub neg_ℕ : ℕ → ℤ
neg_ℕ n = if nat_eq n 0 then pos 0 else negsuc (n - 1)

-- An int64 holds an integer modulo 2^64, between -2^63 and 2^63 - 1.
unfoldable pub wrap64 : ℤ → ℤ
wrap64 (pos n) = let m = n % 2 ^ 64 in if ltb m (2 ^ 63) then pos m else neg_ℕ (2 ^ 64 - m)
wrap64 (negsuc n) = let m = suc n % 2 ^ 64 in if leb m (2 ^ 63) then neg_ℕ m else pos (2 ^ 64 - m)

-- a * k as an int64
unfoldable pub mul64 : ℤ → ℕ → ℤ
unfolding wrap64
mul64 (pos n) k = wrap64 (pos (n * k))
mul64 (negsuc n) k = wrap64 (neg_ℕ (suc n * k))

-- a / k and a % k ≡ 0 in Go, which round towards zero
unfoldable pub div_ℕ : ℤ → ℕ → ℤ
div_ℕ (pos n) k = pos (n / k)
div_ℕ (negsuc n) k = neg_ℕ (suc n / k)

unfoldable pub divides_ℕ : ℕ → ℤ → Bool
divides_ℕ k (pos n) = nat_eq (n % k) 0
divides_ℕ k (negsuc n) = nat_eq (suc n % k) 0
