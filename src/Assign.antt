-- ===== src/Assign.antt =====
-- internal/assign and the accessors of api/v1alpha1 that it calls: which ConversionWebhookServer
-- serves a conversion config.
pub mod Ranking
pub mod Shards
pub mod Resolving
pub mod Handover
use Prim.Native.Char.{nul}
use declarative_conversion_o.Prelude.{
  ℕ, zero, suc, ◌+◌, ◌%◌, ◌^◌, String, Bool, true, false, ◌&&◌, ◌||◌, not, Option, none, some, List,
  [], ◌∷◌, map, ◌==◌, keep, any, if◌then◌else◌,
}
use declarative_conversion_o.Prelude.Int.{ℤ, pos, negsuc}
use declarative_conversion_o.Prelude.Text.{append, single, has_prefix, str_ltb, sort_strings}
use declarative_conversion_o.Prelude.Result.{Result, ok, err}
use declarative_conversion_o.Engine.Json.{Float64}

-- hash/fnv, math and float64 arithmetic.
pub record Hashing : Type 0 where
  pub sum64 : String → ℕ
  pub of_nat : ℕ → Float64
  pub neg : Float64 → Float64
  pub div : Float64 → Float64 → Float64
  pub log : Float64 → Float64
  pub neg_inf : Float64
  pub gt : Float64 → Float64 → Bool
  pub eq : Float64 → Float64 → Bool

pub record Sharding : Type 0 where
  pub enabled : Option Bool
  pub weight : Option ℤ

-- The fields of a ConversionWebhookServer that assignment reads.
pub record Server : Type 0 where
  pub name : String
  pub default : Bool
  pub sharding : Option Sharding

-- ConfigLike and ServingConfigLike: the name in webhookServerRef, if there is one.
pub record Config : Type 0 where
  pub webhook_server_ref : Option String
  pub shard_key : String
  pub applied_webhook_url : String

pub data AssignError : Type 0 where
  no_such_server : String → AssignError
  no_default : AssignError
  multiple_defaults : List String → AssignError

abbrev enabled_or_true : Option Bool → Bool
enabled_or_true none = true
enabled_or_true (some b) = b

unfoldable pub sharding_enabled : Option Sharding → Bool
sharding_enabled none = false
sharding_enabled (some s) = enabled_or_true s.enabled

abbrev positive_or_one : Option ℤ → ℕ
positive_or_one (some (pos (suc n))) = suc n
positive_or_one _ = 1

unfoldable pub shard_weight : Option Sharding → ℕ
shard_weight none = 1
shard_weight (some s) = positive_or_one s.weight

-- sort.Slice by name
unfoldable pub insert_server : Server → List Server → List Server
insert_server s [] = s ∷ []
insert_server s (t ∷ ts) = if str_ltb t.name s.name then t ∷ insert_server s ts else s ∷ t ∷ ts

unfoldable pub sort_servers : List Server → List Server
unfolding insert_server
sort_servers [] = []
sort_servers (s ∷ ss) = insert_server s (sort_servers ss)

unfoldable pub shard_pool : List Server → List Server
shard_pool servers = sort_servers (keep (λ s. sharding_enabled s.sharding) servers)

unfoldable pub default_of : List String → Result AssignError String
default_of [] = err no_default
default_of (name ∷ []) = ok name
default_of (a ∷ b ∷ names) = err (multiple_defaults (sort_strings (a ∷ b ∷ names)))

-- The name that webhookServerRef pins, if it is there and not empty.
abbrev pub pinned : Option String → Option String
pinned none = none
pinned (some name) = if name == "" then none else some name

unfoldable pub explicit : List Server → String → Result AssignError String
explicit servers name =
    if any (λ s. s.name == name) servers then ok name else err (no_such_server name)

abbrev pub names_server : String → Result AssignError String → Bool
names_server server_name (ok name) = name == server_name
names_server server_name (err e) = false

module _ (h : Hashing) where
  -- const mantissa = 1 << 53
  unfoldable pub shard_score : String → String → ℕ → Float64
  shard_score server_name key weight =
      let sum = h.sum64 (append (append server_name (single nul)) key) in
      let u = h.div (h.of_nat (sum % 2 ^ 53 + 1)) (h.of_nat (2 ^ 53 + 1)) in
      h.div (h.neg (h.of_nat weight)) (h.log u)

  unfoldable pub score_of : String → Server → Float64
  unfolding shard_score shard_weight
  score_of key s = shard_score s.name key (shard_weight s.sharding)

  -- score > bestScore || (score == bestScore && s.Name < best)
  unfoldable pub beats : String → Float64 → String → Float64 → Bool
  beats name score best best_score =
      h.gt score best_score || (h.eq score best_score && str_ltb name best)

  -- The loop of `PickShard` with the best member so far.
  unfoldable pub pick_from : String → List Server → String → Float64 → String
  unfolding beats
  pick_from key [] best best_score = best
  pick_from key (s ∷ pool) best best_score =
      let won = beats s.name (score_of key s) best best_score in
      pick_from key pool (if won then s.name else best) (if won then score_of key s else best_score)

  unfoldable pub pick_shard : List Server → String → String
  unfolding pick_from
  pick_shard pool key = pick_from key pool "" h.neg_inf

  unfoldable pub automatic : String → List Server → List Server → Result AssignError String
  unfolding default_of
  automatic key servers [] =
      default_of (map (λ (s : Server). s.name) (keep (λ s. s.default) servers))
  automatic key servers (s ∷ pool) = ok (pick_shard (s ∷ pool) key)

  abbrev resolve_ref : Config → List Server → Option String → Result AssignError String
  resolve_ref cfg servers (some name) = explicit servers name
  resolve_ref cfg servers none = automatic cfg.shard_key servers (shard_pool servers)

  unfoldable pub resolve_assignment : Config → List Server → Result AssignError String
  unfolding explicit automatic
  resolve_assignment cfg servers = resolve_ref cfg servers (pinned cfg.webhook_server_ref)

  unfoldable pub is_assigned_to : Config → List Server → String → Bool
  is_assigned_to cfg servers server_name = names_server server_name (resolve_assignment cfg servers)

  unfoldable pub configs_assigned_to : List Config → List Server → String → List Config
  unfolding is_assigned_to
  configs_assigned_to configs servers server_name =
      keep (λ cfg. is_assigned_to cfg servers server_name) configs

unfoldable pub webhook_server_service_name : String → String
webhook_server_service_name server_name = append server_name "-webhook-server"

unfoldable pub target_points_at : String → String → Bool
unfolding webhook_server_service_name has_prefix
target_points_at applied_url server_name =
    if applied_url == ""
    then false
    else has_prefix applied_url
        (append (append "https://" (webhook_server_service_name server_name)) ".")

module _ (h : Hashing) where
  unfoldable pub served_by : Config → List Server → String → Bool
  unfolding target_points_at
  served_by cfg servers server_name =
      if is_assigned_to h cfg servers server_name
      then true
      else target_points_at cfg.applied_webhook_url server_name

  unfoldable pub configs_served_by : List Config → List Server → String → List Config
  unfolding served_by
  configs_served_by configs servers server_name =
      keep (λ cfg. served_by cfg servers server_name) configs
