-- ===== src/WebhookServer.antt =====
-- internal/webhookserver and internal/servedtargets: a replica of the conversion webhook.
pub mod Registry
pub mod Reconciler
pub mod Review
pub mod ServedTargets
pub mod Publisher
