-- ===== src/Examples/Rollouts.antt =====
-- Rollout validation of two configurations.
use declarative_conversion_o.Prelude.{
  ◌+◌, ◌*◌, ◌^◌, ◌<◌, String, ◌≡◌, ◌↔◌, refl, Option, none, some, [], ◌∷◌, ◌==◌, arith,
  if◌then◌else◌,
}
use declarative_conversion_o.Prelude.Int.{ℤ, pos}
use declarative_conversion_o.Prelude.Result.{ok}
use declarative_conversion_o.Api.Rollout.{
  RolloutSpec, second, shutdown_timeout_from_args, validate_rollout_strategy,
  validate_webhook_server_rollout,
}
use declarative_conversion_o.Api.ExtraArgs.{long_flag_name, takes_next}
use declarative_conversion_o.Api.Rollout.Drain.{
  validate_webhook_server_rollout_iff, validate_webhook_server_rollout-overflow,
}

-- 20 s, and a text that stands for about 292 years.
abbrev parse_duration : String → Option ℤ
parse_duration s =
    if s == "20s"
    then some (pos (20 * 10 ^ 9))
    else if s == "2562047h47m16s"
    then some (pos (9223372036 * 10 ^ 9))
    else none

abbrev rollout : RolloutSpec
rollout = record {
  pre_stop_sleep_seconds = some (pos 10);
  termination_grace_period_seconds = some (pos 40);
  max_unavailable = none;
  max_surge = none;
}

short_timeout :
    shutdown_timeout_from_args parse_duration ("--v" ∷ "2" ∷ "--shutdown-timeout=20s" ∷ [])
    ≡ ok (pos (20 * 10 ^ 9))
unfolding shutdown_timeout_from_args long_flag_name takes_next
short_timeout = refl

validate_webhook_server_rollout_iff_example :
    (validate_webhook_server_rollout parse_duration
        (some rollout)
        ("--v" ∷ "2" ∷ "--shutdown-timeout=20s" ∷ [])
      ≡ ok tt)
    ↔ ((10 * second + 20 * 10 ^ 9 < 40 * second)
        × (validate_rollout_strategy (some rollout) ≡ ok tt))
validate_webhook_server_rollout_iff_example =
    validate_webhook_server_rollout_iff (some rollout) 10 40 (20 * 10 ^ 9) refl refl (omega arith)
      parse_duration ("--v" ∷ "2" ∷ "--shutdown-timeout=20s" ∷ []) short_timeout (omega arith)

long_timeout :
    shutdown_timeout_from_args parse_duration ("--shutdown-timeout" ∷ "2562047h47m16s" ∷ [])
    ≡ ok (pos (9223372036 * 10 ^ 9))
unfolding shutdown_timeout_from_args long_flag_name takes_next
long_timeout = refl

validate_webhook_server_rollout-overflow_example :
    validate_webhook_server_rollout parse_duration
      (some rollout)
      ("--shutdown-timeout" ∷ "2562047h47m16s" ∷ [])
    ≡ validate_rollout_strategy (some rollout)
validate_webhook_server_rollout-overflow_example =
    validate_webhook_server_rollout-overflow (some rollout) 10 40 (9223372036 * 10 ^ 9) refl refl
      (omega arith) parse_duration ("--shutdown-timeout" ∷ "2562047h47m16s" ∷ []) long_timeout
      (omega arith) (omega arith) (omega arith)
