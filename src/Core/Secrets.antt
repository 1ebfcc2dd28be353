-- ===== src/Core/Secrets.antt =====
-- crates/clippo-core/src/secrets.rs: whether a copy is a suspected secret, and which rule says so.
pub mod Masking
pub mod Hint
pub mod Shapes
pub mod Entropy
pub mod Detect
