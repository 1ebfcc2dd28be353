-- ===== src/Core.antt =====
-- crates/clippo-core: the types and the pure functions that every other crate shares.
pub mod Display
pub mod Paths
pub mod Entry
pub mod Host
pub mod Secrets
pub mod Chord
pub mod Config
