-- ===== src/Webhook.antt =====
-- The inbound half (src/webhook_receiver): signed webhooks are deduplicated, kept as bronze rows and
-- published to the broker.
pub mod Store
pub mod Receiver
pub mod Publisher
mod Tests
