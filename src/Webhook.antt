-- ===== src/Webhook.antt =====
-- The admission webhooks (api/v1/*_webhook.go).
pub mod Errors
pub mod VpnGw
pub mod IpsecConn
pub mod KeepAlived
