-- ===== src/Wayland/Watch/Steps/Sound.antt =====
-- watch.rs: what holds of the watcher, whatever reaches it.
use clippo.Wayland.Watch.{WatchState}
use clippo.Wayland.Watch.Reads.Held.{IsHeld}
use clippo.Wayland.Watch.Pastes.Bounded.{AreParked}
use clippo.Wayland.Watch.Reads.Registered.{IsRegistered}

-- the selection that is read waits, and the loop has exactly its sources
abbrev pub IsReading : WatchState → Type 0
IsReading w = IsHeld w.generation w.pending × IsRegistered w.pending w.sources

-- and the pastes that wait are queued and bounded
abbrev pub IsSound : WatchState → Type 0
IsSound w = IsReading w × AreParked w
