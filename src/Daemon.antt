-- ===== src/Daemon.antt =====
-- crates/clippod: the daemon.
pub mod Echo
pub mod Cache
pub mod Preview
pub mod State
