-- ===== src/Budget.antt =====
-- internal/budget: the ledger in SQLite and the guard that reads it.
pub mod Models
pub mod Ledger
pub mod Guard
