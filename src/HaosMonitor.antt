-- ===== src/HaosMonitor.antt =====
-- The haos-monitor add-on (haos-monitor/app): hosts, their status and their incidents.
pub mod Incidents
pub mod Hosts
mod Tests
