-- ===== src/Examples.antt =====
-- Runs at concrete inputs: tests of the definitions, and the theorems applied.
mod Sources
mod Messages
mod Names
mod Servers
mod Datagrams
mod Proxies
