-- ===== src/Net.antt =====
-- Addresses and headers of the two internet protocols.
pub mod Ipv4
pub mod Addr
pub mod Ip6
