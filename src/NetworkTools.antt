-- ===== src/NetworkTools.antt =====
-- The network tools (network-tools): the ARP scan of hosts.
pub mod Arping
mod Tests
