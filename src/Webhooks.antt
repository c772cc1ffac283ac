-- ===== src/Webhooks.antt =====
-- delivery.ts and webhookDlqWorker.ts: webhooks, their state, their delivery and their retries.
pub mod Model
pub mod Payload
pub mod Delivery
pub mod Notification
pub mod Worker
