-- ===== src/Api/Rollout/Drain.antt =====
-- api/v1alpha1/rollout_validation.go: the arithmetic of the grace period.
use declarative_conversion_o.Prelude.{
  ℕ, ◌+◌, ◌-◌, ◌*◌, ◌^◌, ◌≤◌, ◌<◌, String, ◌≡◌, ◌↔◌, refl, Option, List, inl, inr, arith, ltb,
  if◌then◌else◌, Bool-cases,
}
use declarative_conversion_o.Prelude.Int.{ℤ, pos, neg_ℕ, wrap64, mul64}
use declarative_conversion_o.Prelude.Result.{ok, err}
use declarative_conversion_o.Api.Rollout.{
  RolloutSpec, RolloutError, second, add64, pre_stop_of, grace_of, check_drain,
  shutdown_timeout_from_args, validate_rollout_strategy, validate_webhook_server_rollout,
}

wrap64_small : (n : ℕ) → n < 2 ^ 63 → wrap64 (pos n) ≡ pos n
unfolding wrap64
wrap64_small n h = ground arith

wrap64_over : (n : ℕ) → 2 ^ 63 ≤ n → n < 2 ^ 64 → wrap64 (pos n) ≡ neg_ℕ (2 ^ 64 - n)
unfolding wrap64
wrap64_over n h k = ground arith

-- What the drain needs, where it fits an int64.
need_small :
    (p s : ℕ)
    → p * second + s < 2 ^ 63
    → add64 (mul64 (pos p) second) (pos s) ≡ pos (p * second + s)
unfolding add64 mul64
need_small p s h =
    let small : p * second < 2 ^ 63 = omega (arith, h) in
    rw (wrap64_small (p * second) small) (wrap64_small (p * second + s) h)

have_small : (g : ℕ) → g * second < 2 ^ 63 → mul64 (pos g) second ≡ pos (g * second)
unfolding mul64
have_small g h = wrap64_small (g * second) h

module _ (rollout : Option RolloutSpec) (p g s : ℕ) (sleeps : pre_stop_of rollout ≡ pos p)
    (grace : grace_of rollout ≡ pos g) (short : g * second < 2 ^ 63) where
  check_drain_small :
      p * second + s < 2 ^ 63
      → check_drain rollout (pos s) ≡ (
          if ltb (p * second + s) (g * second)
          then ok tt
          else err (RolloutError.too_short (pos g) (pos p) (pos s) (pos (p * second + s))))
  unfolding check_drain
  check_drain_small fits =
      rw (sleeps, grace, need_small p s fits, have_small g short) (ground arith)

  check_drain_over :
      p * second < 2 ^ 63
      → s < 2 ^ 63
      → 2 ^ 63 ≤ p * second + s
      → check_drain rollout (pos s) ≡ ok tt
  unfolding check_drain add64 mul64
  check_drain_over fits small over =
      let total : p * second + s < 2 ^ 64 = omega (arith, fits, small) in
      rw
        (
          sleeps,
          grace,
          wrap64_small (p * second) fits,
          wrap64_over (p * second + s) over total,
          have_small g short,
        )
        (ground arith)

  module _ (parse_duration : String → Option ℤ) (extra_args : List String)
      (timeout : shutdown_timeout_from_args parse_duration extra_args ≡ ok (pos s)) where
    -- A rollout passes exactly if the preStop sleep and the shutdown timeout together are shorter
    -- than the grace period and the update strategy passes, where the sum and the grace period in
    -- nanoseconds fit an int64.
    pub validate_webhook_server_rollout_iff :
        p * second + s < 2 ^ 63
        → (validate_webhook_server_rollout parse_duration rollout extra_args ≡ ok tt)
          ↔ ((p * second + s < g * second) × (validate_rollout_strategy rollout ≡ ok tt))
    unfolding validate_webhook_server_rollout
    validate_webhook_server_rollout_iff fits =
        elim (Bool-cases (ltb (p * second + s) (g * second))) [
          | inl e ↦ rw (timeout, check_drain_small fits, e) (λ h. (ground arith, h), λ h. h.1)
          | inr e ↦
              rw (timeout, check_drain_small fits, e) (λ h. cc h, λ h. absurd (ground (arith, h.0)))
        ]

    -- Where the grace period and the sleep, in nanoseconds, and the timeout each fit an int64, but
    -- the sum of the sleep and the timeout does not, the sum wraps to a negative number, and the
    -- rollout passes if its update strategy does, however short the grace period is.
    pub validate_webhook_server_rollout-overflow :
        p * second < 2 ^ 63
        → s < 2 ^ 63
        → 2 ^ 63 ≤ p * second + s
        → validate_webhook_server_rollout parse_duration rollout extra_args
          ≡ validate_rollout_strategy rollout
    unfolding validate_webhook_server_rollout
    validate_webhook_server_rollout-overflow fits small over =
        rw (timeout, check_drain_over fits small over) refl
