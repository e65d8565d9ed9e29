-- ===== src/Api/Rollout.antt =====
-- api/v1alpha1/rollout_validation.go: a replica's grace period holds its preStop sleep and its drain,
-- and the rolling update can make progress.
pub mod Drain
use Prim.Native.Char.{code}
use declarative_conversion_o.Prelude.{
  ℕ, zero, suc, ◌+◌, ◌-◌, ◌*◌, ◌^◌, String, Bool, true, false, ◌&&◌, ◌||◌, not, Option, none, some,
  List, [], ◌∷◌, ◌==◌, ltb, leb, nat_eq, if◌then◌else◌, is_empty,
}
use declarative_conversion_o.Prelude.Int.{
  ℤ, pos, negsuc, pos_part, neg_part, ltb_ℤ, neg_ℕ, wrap64, mul64,
}
use declarative_conversion_o.Prelude.Result.{Result, ok, err, ◌>>=◌, ◌>>◌}
use declarative_conversion_o.Api.ExtraArgs.{long_flag_name, takes_next, contains_equals}

-- intstr.IntOrString
pub data IntOrString : Type 0 where
  int : ℤ → IntOrString
  text : String → IntOrString

pub record RolloutSpec : Type 0 where
  pub pre_stop_sleep_seconds : Option ℤ  -- int32
  pub termination_grace_period_seconds : Option ℤ  -- int64
  pub max_unavailable : Option IntOrString
  pub max_surge : Option IntOrString

pub data RolloutError : Type 0 where
  -- seconds of grace and of sleep, the drain and what is needed
  too_short : (grace pre_stop shutdown need : ℤ) → RolloutError
  negative not_a_number_or_percentage invalid_percentage negative_percentage : String → RolloutError
  both_zero : RolloutError
  not_a_duration not_positive : String → RolloutError

abbrev pub second : ℕ
second = 10 ^ 9

abbrev pub default_pre_stop_sleep_seconds : ℤ
default_pre_stop_sleep_seconds = pos 5

abbrev pub default_grace_period_seconds : ℤ
default_grace_period_seconds = pos 45

-- DefaultWebhookServerShutdownTimeout
abbrev pub default_shutdown_timeout : ℤ
default_shutdown_timeout = pos (30 * second)

abbrev or_default : {A : Type 0} → Option A → A → A
or_default none d = d
or_default (some a) d = a

-- strings.HasSuffix(s, "%") and strings.TrimSuffix(s, "%"): the text before a final '%'
unfoldable before_percent : String → Option String
before_percent String.[] = none
before_percent (String.◌∷◌ c String.[]) = if nat_eq (code c) b'%' then some "" else none
before_percent (String.◌∷◌ c (String.◌∷◌ d s)) = elim (before_percent (String.◌∷◌ d s)) [
  | none ↦ none
  | some t ↦ some (String.◌∷◌ c t)
]

-- The number that decimal digits stand for, after those before.
unfoldable digits_value : ℕ → String → Option ℕ
digits_value n String.[] = some n
digits_value n (String.◌∷◌ c s) =
    let rest = digits_value (10 * n + (code c - b'0')) s in
    if leb b'0' (code c) && leb (code c) b'9' then rest else none

abbrev natural : String → Option ℕ
natural s = if s == "" then none else digits_value 0 s

-- Out of the range of an int64, strconv.Atoi returns an error.
abbrev in_range : (most : ℕ) → (ℕ → ℤ) → Option ℕ → Option ℤ
in_range most sign none = none
in_range most sign (some n) = if leb n most then some (sign n) else none

-- strconv.Atoi
unfoldable atoi : String → Option ℤ
unfolding digits_value
atoi String.[] = none
atoi (String.◌∷◌ c s) =
    if nat_eq (code c) b'-'
    then in_range (2 ^ 63) neg_ℕ (natural s)
    else if nat_eq (code c) b'+'
    then in_range (2 ^ 63 - 1) pos (natural s)
    else in_range (2 ^ 63 - 1) pos (natural (String.◌∷◌ c s))

abbrev is_negative : ℤ → Bool
is_negative (pos n) = false
is_negative (negsuc n) = true

abbrev is_zero : ℤ → Bool
is_zero (pos zero) = true
is_zero _ = false

abbrev validate_percent : String → Option ℤ → Result RolloutError Unit
validate_percent field none = err (invalid_percentage field)
validate_percent field (some n) = if is_negative n then err (negative_percentage field) else ok tt

abbrev validate_text : String → Option String → Result RolloutError Unit
validate_text field none = err (not_a_number_or_percentage field)
validate_text field (some digits) = validate_percent field (atoi digits)

unfoldable pub validate_int_or_percent : Option IntOrString → String → Result RolloutError Unit
unfolding before_percent atoi
validate_int_or_percent none field = ok tt
validate_int_or_percent (some (int n)) field = if is_negative n then err (negative field) else ok tt
validate_int_or_percent (some (text raw)) field = validate_text field (before_percent raw)

abbrev zero_or_error : Option ℤ → Bool
zero_or_error none = false
zero_or_error (some n) = is_zero n

unfoldable pub is_zero_int_or_percent : IntOrString → Bool
unfolding before_percent atoi
is_zero_int_or_percent (int n) = is_zero n
is_zero_int_or_percent (text raw) = zero_or_error (atoi (or_default (before_percent raw) raw))

abbrev unavailable_zero : Option IntOrString → Bool
unavailable_zero none = true
unavailable_zero (some v) = is_zero_int_or_percent v

abbrev surge_zero : Option IntOrString → Bool
surge_zero none = false
surge_zero (some v) = is_zero_int_or_percent v

unfoldable pub validate_rollout_strategy : Option RolloutSpec → Result RolloutError Unit
unfolding validate_int_or_percent is_zero_int_or_percent
validate_rollout_strategy none = ok tt
validate_rollout_strategy (some r) = do
  validate_int_or_percent r.max_unavailable "rollout.maxUnavailable"
  validate_int_or_percent r.max_surge "rollout.maxSurge"
  if unavailable_zero r.max_unavailable && surge_zero r.max_surge then err both_zero else ok tt

-- The text after the first '=', if there is one.
unfoldable after_equals : String → Option String
after_equals String.[] = none
after_equals (String.◌∷◌ c s) =
    let rest = after_equals s in if nat_eq (code c) b'=' then some s else rest

-- The next argument, or "".
abbrev next_or_empty : List String → String
next_or_empty [] = ""
next_or_empty (a ∷ args) = a

-- d <= 0
abbrev positive : String → Option ℤ → Result RolloutError ℤ
positive raw none = err (not_a_duration raw)
positive raw (some (pos (suc n))) = ok (pos (suc n))
positive raw (some _) = err (not_positive raw)

-- a + b as an int64
unfoldable pub add64 : ℤ → ℤ → ℤ
unfolding wrap64
add64 (pos a) (pos b) = wrap64 (pos (a + b))
add64 (negsuc a) (negsuc b) = wrap64 (negsuc (a + b + 1))
add64 (pos a) (negsuc b) = if leb (b + 1) a then pos (a - (b + 1)) else negsuc (b - a)
add64 (negsuc a) (pos b) = if leb (a + 1) b then pos (b - (a + 1)) else negsuc (a - b)

abbrev is_shutdown_timeout : Option String → Bool
is_shutdown_timeout none = false
is_shutdown_timeout (some name) = name == "shutdown-timeout"

abbrev is_flag : Option String → Bool
is_flag none = false
is_flag (some name) = true

abbrev pub pre_stop_of : Option RolloutSpec → ℤ
pre_stop_of none = default_pre_stop_sleep_seconds
pre_stop_of (some r) = or_default r.pre_stop_sleep_seconds default_pre_stop_sleep_seconds

abbrev pub grace_of : Option RolloutSpec → ℤ
grace_of none = default_grace_period_seconds
grace_of (some r) = or_default r.termination_grace_period_seconds default_grace_period_seconds

-- need >= have is an error.
unfoldable pub check_drain : Option RolloutSpec → ℤ → Result RolloutError Unit
unfolding add64
check_drain rollout shutdown =
    let need = add64 (mul64 (pre_stop_of rollout) second) shutdown in
    let available = mul64 (grace_of rollout) second in
    if ltb_ℤ need available
    then ok tt
    else err (too_short (grace_of rollout) (pre_stop_of rollout) shutdown need)

module _ (parse_duration : String → Option ℤ) where
  -- The loop; `skip` says that it passes over this argument.
  unfoldable pub timeout_from : Bool → ℤ → List String → Result RolloutError ℤ
  unfolding contains_equals after_equals
  timeout_from skip effective [] = ok effective
  timeout_from skip effective (arg ∷ args) =
      let raw = or_default (after_equals arg) (next_or_empty args) in
      let plain =
        timeout_from (is_flag (long_flag_name arg) && takes_next arg args) effective args in
      let valued = not (contains_equals arg) && not (is_empty args) in
      let skipped = timeout_from false effective args in
      if skip
      then skipped
      else if is_shutdown_timeout (long_flag_name arg)
      then positive raw (parse_duration raw) >>= (λ d. timeout_from valued d args)
      else plain

  unfoldable pub shutdown_timeout_from_args : List String → Result RolloutError ℤ
  unfolding timeout_from
  shutdown_timeout_from_args args = timeout_from false default_shutdown_timeout args

  unfoldable pub validate_webhook_server_rollout :
      Option RolloutSpec → List String → Result RolloutError Unit
  unfolding validate_rollout_strategy check_drain
  validate_webhook_server_rollout rollout extra_args = do
    shutdown ← shutdown_timeout_from_args extra_args
    check_drain rollout shutdown
    validate_rollout_strategy rollout
