-- ===== src/Store.antt =====
-- src/store: the durable state of the program, one SQLite database.
pub mod Queue
pub mod Reviews
pub mod Deliveries
