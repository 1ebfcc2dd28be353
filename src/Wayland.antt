-- ===== src/Wayland.antt =====
-- crates/clippo-wayland: the clipboard. The Wayland protocol itself is not modelled.
pub mod Mime
pub mod Selection
pub mod Pending
pub mod Advertised
pub mod Offer
pub mod Watch
pub mod Keys
