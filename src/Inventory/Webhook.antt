-- ===== src/Inventory/Webhook.antt =====
-- A call of `projectWebhook`, and what a deletion does.
