-- ===== src/WebhookServer/Reconciler.antt =====
-- internal/webhookserver/reconciler.go and handover.go: what one reconciliation of a config does to
-- the registry of a replica, given what the API server answers.
pub mod Keeping
pub mod Draining
pub mod Serving
use declarative_conversion_o.Prelude.{
  ℕ, zero, suc, ◌+◌, ◌-◌, ◌*◌, ◌^◌, String, Bool, false, ◌&&◌, ◌||◌, not, Option, none, some, List,
  [], ◌∷◌, ◌==◌, ltb, if◌then◌else◌, is_some, is_empty,
}
use declarative_conversion_o.Prelude.Int.{ℤ, pos, negsuc}
use declarative_conversion_o.Prelude.Text.{append}
use declarative_conversion_o.Prelude.Assoc.{Map, lookup, insert, remove}
use declarative_conversion_o.Prelude.Result.{Result, ok, err}
use declarative_conversion_o.Engine.Json.{Json, str, Object}
use declarative_conversion_o.Engine.Path.{get_value}
use declarative_conversion_o.Engine.Op.{Plan}
use declarative_conversion_o.Engine.Diagnostics.{
  LosslessVerdict, SpokeReport, AnalyzeReport, has_errors,
}
use declarative_conversion_o.Assign.{
  Hashing, Server, Config, resolve_assignment, webhook_server_service_name, names_server,
}
use declarative_conversion_o.WebhookServer.Registry.{
  Registry, CompileError, no_error, target_not_found, invalid_rule_configuration, analysis_failed,
  validation_errors, CompiledEntry, get, set, record_error, remove_entry,
}

-- What a read of one object answers.
pub data Fetched (A : Type 0) : Type 0 where
  not_found : Fetched A
  failed : String → Fetched A
  found : A → Fetched A

-- What a reconciliation reads of a config.
pub record ConversionConfig : Type 0 where
  pub deleting : Bool
  pub target : String
  pub hub_version : String
  pub conversion_review_versions : List String
  pub assignment : Config

-- What cfg.ToRuleSets and engine.Analyze return.
pub data Analysis : Type 0 where
  invalid_rules analyze_failed : String → Analysis
  report : AnalyzeReport → Analysis

-- `drain_period` is in nanoseconds, and times are too. `notified` is the token in the publisher's
-- channel.
pub record Replica : Type 0 where
  pub server_name : String
  pub registry : Registry
  pub drain_period : ℤ
  pub bulk_sync : Bool
  pub notified : Bool
  pub config_to_target : Map String
  pub drain_until : Map ℕ

-- A reconciliation returns the time after which to run again, or the error that makes it retry.
abbrev pub Outcome : Type 0
Outcome = Replica × Result String ℕ

-- xrd.Object at spec.conversion.webhook.clientConfig.service.name
abbrev service_name : Option Json → Option String
service_name (some (str name)) = some name
service_name _ = none

abbrev is_service : Option String → String → Bool
is_service none server_name = false
is_service (some name) server_name = name == webhook_server_service_name server_name

unfoldable pub xrd_points_at_server : Object → String → Bool
xrd_points_at_server xrd server_name =
    is_service
      (service_name (
        get_value xrd
          ("spec" ∷ "conversion" ∷ "webhook" ∷ "clientConfig" ∷ "service" ∷ "name" ∷ [])))
      server_name

-- The pointers of a CRD down to the service's name.
pub record ClientConfig : Type 0 where
  pub service : Option String

pub record Webhook : Type 0 where
  pub client_config : Option ClientConfig

pub record Conversion : Type 0 where
  pub webhook : Option Webhook

abbrev crd_client_config : Option ClientConfig → Option String
crd_client_config none = none
crd_client_config (some c) = c.service

abbrev crd_webhook : Option Webhook → Option String
crd_webhook none = none
crd_webhook (some w) = crd_client_config w.client_config

abbrev crd_service : Option Conversion → Option String
crd_service none = none
crd_service (some c) = crd_webhook c.webhook

unfoldable pub crd_points_at_server : Option Conversion → String → Bool
crd_points_at_server conversion server_name = is_service (crd_service conversion) server_name

-- registryChanged, without the gauges
abbrev pub registry_changed : Replica → Replica
registry_changed r = record r { notified = r.notified || not r.bulk_sync }

unfoldable pub cancel_drain : String → Replica → Replica
cancel_drain key r = record r { drain_until = remove key r.drain_until }

-- const DefaultTargetDrainPeriod = 30 * time.Second
abbrev pub default_target_drain_period : ℕ
default_target_drain_period = 30 * 10 ^ 9

abbrev period_of : ℤ → Option ℕ
period_of (pos zero) = some default_target_drain_period
period_of (pos (suc n)) = some (suc n)
period_of (negsuc n) = none

-- With no deadline yet, one is set.
abbrev drain_at : String → ℕ → ℕ → Replica → Option ℕ → Replica × ℕ
drain_at key period now r none =
    (record r { drain_until = insert key (now + period) r.drain_until }, period)
drain_at key period now r (some deadline) =
    if ltb now deadline then (r, deadline - now) else (cancel_drain key r, 0)

abbrev drain_for : String → String → ℕ → Replica → Option ℕ → Replica × ℕ
drain_for key target now r none = (r, 0)
drain_for key target now r (some period) =
    if is_some (get r.registry target)
    then drain_at key period now r (lookup key r.drain_until)
    else (cancel_drain key r, 0)

unfoldable pub drain_remaining : String → String → ℕ → Replica → Replica × ℕ
drain_remaining key target now r = drain_for key target now r (period_of r.drain_period)

unfoldable pub config_key : String → String → String
config_key kind name = append kind (append "/" name)

unfoldable pub remember_config : String → String → Replica → Replica
remember_config key target r = record r { config_to_target = insert key target r.config_to_target }

unfoldable pub drop_target : String → String → Replica → Replica
unfolding cancel_drain
drop_target key target r =
    registry_changed (record (cancel_drain key r) { registry = remove_entry r.registry target })

abbrev forget_target : Option String → Replica → Replica
forget_target none r = r
forget_target (some target) r =
    registry_changed (record r { registry = remove_entry r.registry target })

unfoldable pub forget_config : String → Replica → Replica
forget_config key r = forget_target (lookup key r.config_to_target) (record r {
  config_to_target = remove key r.config_to_target;
  drain_until = remove key r.drain_until;
})

unfoldable pub record_failure : String → CompileError → ℕ → Replica → Replica
record_failure target msg now r =
    registry_changed (record r { registry = record_error r.registry target msg now })

unfoldable pub plans_of : List SpokeReport → Map (Option Plan) → Map (Option Plan)
plans_of [] plans = plans
plans_of (s ∷ reports) plans = plans_of reports (insert s.version s.compiled_plan plans)

unfoldable pub lossless_of : List SpokeReport → Map LosslessVerdict → Map LosslessVerdict
lossless_of [] m = m
lossless_of (s ∷ reports) m = lossless_of reports (insert s.version s.lossless m)

abbrev or_v1 : List String → List String
or_v1 versions = if is_empty versions then "v1" ∷ [] else versions

unfoldable pub compile_and_register :
    ConversionConfig → AnalyzeReport → String → ℕ → Replica → Replica
unfolding plans_of lossless_of
compile_and_register cfg rep plan_hash now r =
    let entry : CompiledEntry = record {
      router = some (record { hub = cfg.hub_version; plans = plans_of rep.spoke_reports [] });
      conversion_review_versions = or_v1 cfg.conversion_review_versions;
      lossless = lossless_of rep.spoke_reports [];
      plan_hash = plan_hash;
      compiled_at = now;
      last_error = no_error;
      last_error_at = 0;
    } in
    registry_changed (record r { registry = set r.registry cfg.target (some entry) })

-- The last part of a reconciliation, once the target is this replica's.
unfoldable pub serve : ConversionConfig → Analysis → String → ℕ → Replica → Replica
unfolding record_failure compile_and_register has_errors
serve cfg (invalid_rules e) plan_hash now r =
    record_failure cfg.target (invalid_rule_configuration e) now r
serve cfg (analyze_failed e) plan_hash now r = record_failure cfg.target (analysis_failed e) now r
serve cfg (report rep) plan_hash now r =
    if has_errors rep
    then record_failure cfg.target validation_errors now r
    else compile_and_register cfg rep plan_hash now r

-- The drain has run out at a wait of 0.
abbrev after_drain : String → String → Replica × ℕ → Outcome
after_drain key target (r, wait) =
    if ltb 0 wait then (r, ok wait) else (drop_target key target r, ok 0)

-- A target that is there: whether it is assigned to this replica's server, and points at it.
unfoldable pub on_target :
    String → ConversionConfig → Bool → Bool → Analysis → String → ℕ → Replica → Outcome
unfolding drain_remaining drop_target serve cancel_drain
on_target key cfg mine points analysis plan_hash now r =
    if not mine && not points
    then after_drain key cfg.target (drain_remaining key cfg.target now r)
    else (serve cfg analysis plan_hash now (cancel_drain key r), ok 0)

-- A target that is gone points at nobody.
unfoldable pub on_missing_target : String → String → ConversionConfig → Bool → ℕ → Replica → Outcome
unfolding drop_target record_failure
on_missing_target key kind cfg mine now r =
    if not mine
    then (drop_target key cfg.target r, ok 0)
    else (record_failure cfg.target (target_not_found kind cfg.target) now r, ok 0)

-- What a replica reads and finds out in one reconciliation: the config, the servers, the target, the
-- analysis, the hash of the plan and the time.
pub record Seen (T : Type 0) : Type 0 where
  pub config : Fetched ConversionConfig
  pub servers : Result String (List Server)
  pub target : Fetched T
  pub analysis : Analysis
  pub plan_hash : String
  pub now : ℕ

module _ (h : Hashing) where
  -- assignErr == nil && assigned == r.ServerName
  unfoldable pub is_mine : ConversionConfig → List Server → Replica → Bool
  is_mine cfg servers r = names_server r.server_name (resolve_assignment h cfg.assignment servers)

  module _ {T : Type 0} (kind key : String) (points : T → Bool) (seen : Seen T) where
    abbrev with_target : ConversionConfig → Bool → Replica → Fetched T → Outcome
    with_target cfg mine r not_found = on_missing_target key kind cfg mine seen.now r
    with_target cfg mine r (failed e) = (r, err e)
    with_target cfg mine r (found t) =
        on_target key cfg mine (points t) seen.analysis seen.plan_hash seen.now r

    abbrev with_servers : ConversionConfig → Replica → Result String (List Server) → Outcome
    with_servers cfg r (err e) = (r, err e)
    with_servers cfg r (ok servers) = with_target cfg (is_mine cfg servers r) r seen.target

    abbrev with_config : Replica → Fetched ConversionConfig → Outcome
    with_config r not_found = (forget_config key r, ok 0)
    with_config r (failed e) = (r, err e)
    with_config r (found cfg) =
        if cfg.deleting
        then (forget_config key r, ok 0)
        else with_servers cfg (remember_config key cfg.target r) seen.servers

  unfoldable pub reconcile_one_xrd : String → Seen Object → Replica → Outcome
  reconcile_one_xrd name seen r =
      with_config "XRD" (config_key "xrd" name) (λ xrd. xrd_points_at_server xrd r.server_name) seen
        r seen.config

  -- The target is the CRD's spec.conversion.
  unfoldable pub reconcile_one_crd : String → Seen (Option Conversion) → Replica → Outcome
  reconcile_one_crd name seen r =
      with_config "CRD" (config_key "crd" name)
        (λ conversion. crd_points_at_server conversion r.server_name) seen r seen.config
