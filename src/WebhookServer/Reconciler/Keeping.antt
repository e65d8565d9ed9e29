-- ===== src/WebhookServer/Reconciler/Keeping.antt =====
-- internal/webhookserver/reconciler.go: what keeps a plan in the registry, and what removes it.
use declarative_conversion_o.Prelude.{
  ℕ, String, ◌≡◌, ◌≢◌, refl, Bool, true, false, ◌||◌, Option, some, List, [], inl, inr, ltb,
  if◌then◌else◌, Bool-cases, eq_refl,
}
use declarative_conversion_o.Prelude.Result.{Result, ok, err}
use declarative_conversion_o.Engine.Json.{Object}
use declarative_conversion_o.Engine.Diagnostics.{has_errors}
use declarative_conversion_o.Engine.Convert.{Router}
use declarative_conversion_o.Assign.{Hashing, Server}
use declarative_conversion_o.WebhookServer.Registry.{
  router_for, router_for-set, router_for-record_error,
}
use declarative_conversion_o.WebhookServer.Reconciler.{
  ConversionConfig, Analysis, invalid_rules, analyze_failed, report, Replica, Fetched, found,
  not_found, failed, Seen, with_config, with_servers, with_target, is_mine, on_target,
  on_missing_target, after_drain, drain_remaining, serve, plans_of, compile_and_register,
  record_failure, cancel_drain, remember_config, config_key, xrd_points_at_server,
  reconcile_one_xrd,
}

-- The router of a report without errors, and the one that was there for anything else.
abbrev pub analysed : ConversionConfig → Analysis → Option Router → Option Router
analysed cfg (invalid_rules e) old = old
analysed cfg (analyze_failed e) old = old
analysed cfg (report rep) old =
    if has_errors rep
    then old
    else some (record { hub = cfg.hub_version; plans = plans_of rep.spoke_reports [] })

serve-analysed :
    (cfg : ConversionConfig) (analysis : Analysis) (plan_hash : String) (now : ℕ) (r : Replica)
    → router_for (serve cfg analysis plan_hash now r).registry cfg.target
      ≡ analysed cfg analysis (router_for r.registry cfg.target)
unfolding serve record_failure compile_and_register
serve-analysed cfg (invalid_rules e) plan_hash now r = router_for-record_error _ _ _ _ _
serve-analysed cfg (analyze_failed e) plan_hash now r = router_for-record_error _ _ _ _ _
serve-analysed cfg (report rep) plan_hash now r = elim (Bool-cases (has_errors rep)) [
  | inl e ↦ rw e (router_for-record_error _ _ _ _ _)
  | inr e ↦ rw (e, router_for-set, eq_refl) refl
]

-- What a reconciliation of a config that is there reads: `servers` and the target `t`.
pub record Reads {T : Type 0} (cfg : ConversionConfig) (servers : List Server) (t : T)
    (seen : Seen T) : Type 0 where
  pub config : seen.config ≡ found cfg
  pub alive : cfg.deleting ≡ false
  pub listed : seen.servers ≡ ok servers
  pub fetched : seen.target ≡ found t

module _ (h : Hashing) where
  module _ {T : Type 0} (kind key : String) (points : T → Bool) (seen : Seen T) where
    pub reads :
        (r : Replica) (cfg : ConversionConfig) (servers : List Server) (t : T)
        → Reads cfg servers t seen
        → with_config h kind key points seen r seen.config
          ≡ on_target key cfg
              (is_mine h cfg servers (remember_config key cfg.target r))
              (points t)
              seen.analysis
              seen.plan_hash
              seen.now
              (remember_config key cfg.target r)
    reads r cfg servers t s = rw (s.config, s.alive, s.listed, s.fetched) refl

  -- Neither assigned to the replica's server nor pointing at it.
  pub away :
      (key : String) (cfg : ConversionConfig) (mine points : Bool) (analysis : Analysis)
      (plan_hash : String) (now : ℕ) (r : Replica)
      → (mine || points) ≡ false
      → on_target key cfg mine points analysis plan_hash now r
        ≡ after_drain key cfg.target (drain_remaining key cfg.target now r)
  unfolding on_target
  away key cfg true points analysis plan_hash now r e = cc e
  away key cfg false true analysis plan_hash now r e = cc e
  away key cfg false false analysis plan_hash now r e = refl

  held :
      (key : String) (cfg : ConversionConfig) (mine points : Bool) (analysis : Analysis)
      (plan_hash : String) (now : ℕ) (r : Replica)
      → (mine || points) ≡ true
      → on_target key cfg mine points analysis plan_hash now r
        ≡ (serve cfg analysis plan_hash now (cancel_drain key r), ok 0)
  unfolding on_target
  held key cfg true points analysis plan_hash now r e = refl
  held key cfg false true analysis plan_hash now r e = refl
  held key cfg false false analysis plan_hash now r e = cc e

  -- While a config is assigned to the replica's server, or the XRD still points at it, the XRD is
  -- served by the new plans if the analysis has no errors, and by the old ones, if there are any,
  -- whatever goes wrong with the rules or the analysis.
  pub reconcile_one_xrd-analysed :
      (name : String) (seen : Seen Object) (r : Replica) (cfg : ConversionConfig)
      (servers : List Server) (xrd : Object)
      → Reads cfg servers xrd seen
      → (is_mine h cfg servers r || xrd_points_at_server xrd r.server_name) ≡ true
      → router_for (reconcile_one_xrd h name seen r).0.registry cfg.target
        ≡ analysed cfg seen.analysis (router_for r.registry cfg.target)
  unfolding reconcile_one_xrd remember_config is_mine cancel_drain
  reconcile_one_xrd-analysed name seen r cfg servers xrd s held_here =
      rw
        (
          reads "XRD" (config_key "xrd" name) (λ x. xrd_points_at_server x r.server_name) seen r cfg
              servers xrd s,
          held (config_key "xrd" name) cfg _ _ seen.analysis seen.plan_hash seen.now _ held_here,
        )
        (serve-analysed cfg seen.analysis seen.plan_hash seen.now _)

  after_drain-succeeds :
      (key target : String) (d : Replica × ℕ) {e : String} → (after_drain key target d).1 ≢ err e
  after_drain-succeeds key target (r, wait) = elim (Bool-cases (ltb 0 wait)) [
    | inl f ↦ rw f (λ q. cc q)
    | inr f ↦ rw f (λ q. cc q)
  ]

  on_target-succeeds :
      (key : String) (cfg : ConversionConfig) (mine points : Bool) (analysis : Analysis)
      (plan_hash : String) (now : ℕ) (r : Replica) {e : String}
      → (on_target key cfg mine points analysis plan_hash now r).1 ≢ err e
  on_target-succeeds key cfg mine points analysis plan_hash now r =
      elim (Bool-cases (mine || points)) [
        | inl f ↦ rw (held key cfg mine points analysis plan_hash now r f) (λ q. cc q)
        | inr f ↦
            rw (away key cfg mine points analysis plan_hash now r f)
              (after_drain-succeeds key cfg.target _)
      ]

  on_missing_target-succeeds :
      (key kind : String) (cfg : ConversionConfig) (mine : Bool) (now : ℕ) (r : Replica)
      {e : String}
      → (on_missing_target key kind cfg mine now r).1 ≢ err e
  unfolding on_missing_target
  on_missing_target-succeeds key kind cfg true now r = λ q. cc q
  on_missing_target-succeeds key kind cfg false now r = λ q. cc q

  module _ {T : Type 0} (kind key : String) (points : T → Bool) (seen : Seen T) where
    target_error :
        (cfg : ConversionConfig) (mine : Bool) (r : Replica) (t : Fetched T) {e : String}
        → (with_target h kind key points seen cfg mine r t).1 ≡ err e
        → (with_target h kind key points seen cfg mine r t).0.registry ≡ r.registry
    target_error cfg mine r not_found f =
        absurd (on_missing_target-succeeds key kind cfg mine _ r f)
    target_error cfg mine r (failed e) f = refl
    target_error cfg mine r (found t) f =
        absurd (on_target-succeeds key cfg mine (points t) _ _ _ r f)

    servers_error :
        (cfg : ConversionConfig) (r : Replica) (s : Result String (List Server)) {e : String}
        → (with_servers h kind key points seen cfg r s).1 ≡ err e
        → (with_servers h kind key points seen cfg r s).0.registry ≡ r.registry
    servers_error cfg r (err e) f = refl
    servers_error cfg r (ok servers) f = target_error cfg (is_mine h cfg servers r) r seen.target f

    config_error :
        (r : Replica) (c : Fetched ConversionConfig) {e : String}
        → (with_config h kind key points seen r c).1 ≡ err e
        → (with_config h kind key points seen r c).0.registry ≡ r.registry
    unfolding remember_config is_mine on_missing_target on_target
    config_error r not_found f = cc f
    config_error r (failed e) f = refl
    config_error r (found cfg) f = elim (Bool-cases cfg.deleting) [
      | inl d ↦ cc (rw d at f)
      | inr d ↦ rw d (servers_error cfg (remember_config key cfg.target r) seen.servers (rw d at f))
    ]

  -- A reconciliation of an XRD's config that fails, and so runs again, leaves the registry as it
  -- was.
  pub reconcile_one_xrd-error :
      (name : String) (seen : Seen Object) (r : Replica) {e : String}
      → (reconcile_one_xrd h name seen r).1 ≡ err e
      → (reconcile_one_xrd h name seen r).0.registry ≡ r.registry
  unfolding reconcile_one_xrd
  reconcile_one_xrd-error name seen r fails =
      config_error "XRD" (config_key "xrd" name) (λ x. xrd_points_at_server x r.server_name) seen r
        seen.config fails
