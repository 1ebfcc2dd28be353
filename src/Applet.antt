-- ===== src/Applet.antt =====
-- crates/clippo-applet: the applet. Its windows and its drawing are not modelled.
pub mod Model
pub mod Thumbnails
pub mod App
pub mod Bus
