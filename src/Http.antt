-- ===== src/Http.antt =====
-- internal/server/http: the HTTP proxy.
pub mod Auth
pub mod Transports
pub mod Headers
pub mod Handler
