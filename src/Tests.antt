-- ===== src/Tests.antt =====
-- Runs of the model at concrete inputs.
pub mod World
pub mod Notifiers
pub mod Listeners
pub mod Buffers
pub mod Wakers
pub mod Sources
pub mod Cells
pub mod Forwarders
pub mod Concurrent
pub mod Calls
pub mod Threads
pub mod Debugging
