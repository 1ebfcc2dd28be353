-- ===== src/Ipc.antt =====
-- crates/clippo-ipc: who is let onto clippo's bus. The bus itself is not modelled.
pub mod Peer
