-- ===== src/Connect.antt =====
-- internal/connect: outbound connections.
pub mod Uint128
pub mod Source
pub mod Dns
pub mod Dial
pub mod Race
pub mod Relay
