-- ===== src/Socks.antt =====
-- internal/server/socks: the SOCKS5 server.
pub mod Auth
pub mod Relay
pub mod Gso
pub mod Runtime
pub mod Inbound
pub mod Responder
pub mod Writer
pub mod Reader
pub mod Commands
pub mod Negotiate
