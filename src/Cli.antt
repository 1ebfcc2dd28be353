-- ===== src/Cli.antt =====
-- crates/clippo-cli: the command line client.
pub mod Ids
pub mod Render
pub mod Run
