-- ===== src/WebhookServer/Reconciler/Draining.antt =====
-- internal/webhookserver/reconciler.go: a target that has moved away is served for the drain period
-- and no longer.
use declarative_conversion_o.Prelude.{ℕ, String}
use declarative_conversion_o.Prelude.Assoc.{insert}
use declarative_conversion_o.Assign.{Hashing}
use declarative_conversion_o.WebhookServer.Reconciler.{ConversionConfig, Replica, remember_config}

module _ (h : Hashing) where
  -- The replica once a drain has begun.
  abbrev draining : String → ℕ → ConversionConfig → Replica → Replica
  draining key deadline cfg r = record (remember_config key cfg.target r) {
    drain_until = insert key deadline r.drain_until;
  }
