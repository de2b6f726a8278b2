-- ===== src/Webhook/Laws.antt =====
-- What the check of pkg/shared/webhook/hmac.go accepts.
