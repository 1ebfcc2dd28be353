-- ===== src/Store.antt =====
-- crates/clippo-store: the history database.
pub mod Images
pub mod Dedup
pub mod Tables
pub mod Sql
pub mod Retention
pub mod Capture
pub mod History
pub mod Key
pub mod Opening
