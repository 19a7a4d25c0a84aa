-- ===== src/WebhookDelivery.antt =====
-- modules/webhooks/webhooks.processor.ts and utils/failure-classification.ts: one delivery of a webhook, its
-- attempts, and what is written of each.
pub mod Classification
pub mod Process
pub mod Agreement
pub mod Exhaustion
mod Tests
