-- ===== src/Ingress.antt =====
-- src/apps/ingress: the webhook.
pub mod Webhook
pub mod Drainer
