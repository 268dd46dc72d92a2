-- ===== src/Store.antt =====
-- internal/store: the tables, and transactions on them.
pub mod Tables
pub mod Transaction
pub mod Keeps
pub mod Relates
pub mod Inversion
pub mod Migrate
pub mod Migrated
pub mod Vault
pub mod Unlocked
