-- ===== src/Assign/Ranking.antt =====
-- internal/assign/shard.go: how two members of a pool compare: by score, and by name where their
-- scores are equal.
use declarative_conversion_o.Prelude.{ℕ, String, ◌≡◌, Bool, true, false, arith, ltb, nat_eq}
use declarative_conversion_o.Prelude.Text.Order.{
  str_ltb_irrefl, str_ltb_total, str_ltb-neg_trans, str_ltb_asym,
}
use declarative_conversion_o.Engine.Json.{Float64}
use declarative_conversion_o.Assign.{Hashing, beats}

-- float64 values that are not NaN are ordered as the naturals are.
pub record Ordered (h : Hashing) : Type 0 where
  pub is_nan : Float64 → Bool
  pub rank : Float64 → ℕ
  pub gt_rank :
      (a b : Float64) → is_nan a ≡ false → is_nan b ≡ false → h.gt a b ≡ ltb (rank b) (rank a)
  pub eq_rank :
      (a b : Float64) → is_nan a ≡ false → is_nan b ≡ false → h.eq a b ≡ nat_eq (rank a) (rank b)
  pub neg_inf_number : is_nan h.neg_inf ≡ false

-- `name` with `score` loses against `other` with `other_score`, or they are one.
abbrev pub Loses : Hashing → String → Float64 → String → Float64 → Type 0
Loses h name score other other_score = beats h name score other other_score ≡ false

module _ (h : Hashing) (o : Ordered h) where
  pub beats_asym :
      (a b : String) (x y : Float64)
      → o.is_nan x ≡ false
      → o.is_nan y ≡ false
      → beats h a x b y ≡ true
      → beats h b y a x ≡ false
  unfolding beats
  beats_asym a b x y p q k = ground (
    arith,
    o.gt_rank x y p q,
    o.gt_rank y x q p,
    o.eq_rank x y p q,
    o.eq_rank y x q p,
    str_ltb_asym a b,
  )

  pub beats-neg_trans :
      (a b c : String) (x y z : Float64)
      → o.is_nan x ≡ false
      → o.is_nan y ≡ false
      → o.is_nan z ≡ false
      → beats h a x b y ≡ false
      → beats h b y c z ≡ false
      → beats h a x c z ≡ false
  unfolding beats
  beats-neg_trans a b c x y z p q r k l = ground (
    arith,
    o.gt_rank x y p q,
    o.gt_rank y z q r,
    o.gt_rank x z p r,
    o.eq_rank x y p q,
    o.eq_rank y z q r,
    o.eq_rank x z p r,
    str_ltb-neg_trans a b c,
  )

  pub beats_total :
      (a b : String) (x y : Float64)
      → o.is_nan x ≡ false
      → o.is_nan y ≡ false
      → Loses h a x b y
      → Loses h b y a x
      → a ≡ b
  unfolding beats
  beats_total a b x y p q k l = ground (
    arith,
    o.gt_rank x y p q,
    o.gt_rank y x q p,
    o.eq_rank x y p q,
    o.eq_rank y x q p,
    str_ltb_total a b,
  )

  pub beats_irrefl : (a : String) (x : Float64) → o.is_nan x ≡ false → Loses h a x a x
  unfolding beats
  beats_irrefl a x p = ground (arith, o.gt_rank x x p p, str_ltb_irrefl a)
