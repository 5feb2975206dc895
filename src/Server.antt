-- ===== src/Server.antt =====
-- internal/server: the middleware before the handlers.
pub mod RateLimit
pub mod Auth
pub mod Http
pub mod Sessions
pub mod Webhooks
