-- ===== src/Server.antt =====
-- internal/serverbase/serverbase.go and the accept loop of internal/server/socks/server.go.
pub mod Gate
pub mod Registry
pub mod Listen
pub mod Accept
