-- ===== src/Dashboard.antt =====
-- src/apps/dashboard: what the status page shows of the store.
pub mod ErrorKind
pub mod Order
pub mod Queries
pub mod RollUp
pub mod Tracked
pub mod Reviewing
