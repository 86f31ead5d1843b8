-- ===== src/Ntfy.antt =====
-- The ntfy add-on (ntfy/app): users, rights and tokens of an ntfy server, and who owns them.
pub mod Contract
pub mod Host
pub mod AuthDb
pub mod Cli
pub mod Origins
pub mod Accounts
pub mod Rights
pub mod Tokens
pub mod Options
pub mod Baseline
pub mod Bootstrap
pub mod Maintenance
mod Tests
