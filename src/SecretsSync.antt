-- ===== src/SecretsSync.antt =====
-- The Secrets Sync add-on (secrets-sync/app).
pub mod Guard
pub mod Paths
pub mod Contract
pub mod Merge
pub mod Sops
pub mod Redact
pub mod State
pub mod World
pub mod Usage
pub mod Supervisor
mod Tests
