-- ===== src/Tests.antt =====
-- The theorems at concrete inputs.
pub mod Samples
pub mod CoreTests
pub mod StoreTests
pub mod DaemonTests
pub mod WaylandTests
pub mod WatchTests
pub mod IpcTests
pub mod KeyTests
pub mod ClientTests
