-- ===== src/Client.antt =====
-- internal/client: the device's side.
pub mod Identity
pub mod Saved
pub mod Connector
pub mod Refresh
pub mod Refreshed
