-- ===== src/Proto.antt =====
-- internal/server/socks/proto: the wire formats of SOCKS5.
pub mod Address
pub mod Udp
pub mod Message
