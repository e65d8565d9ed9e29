-- ===== src/Api.antt =====
-- api/v1alpha1: what admission and the controllers check of a ConversionWebhookServer.
pub mod ExtraArgs
pub mod Rollout
