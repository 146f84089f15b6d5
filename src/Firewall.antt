-- ===== src/Firewall.antt =====
-- The firewall backend: crates/daemon/src/firewall.rs.
pub mod Throttle
pub mod Packet
pub mod Verdict
pub mod Worker
pub mod Table
