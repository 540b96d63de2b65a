-- ===== src/Notifier.antt =====
-- src/notifier.rs
pub mod Raw
pub mod Delivery
pub mod Slices
pub mod SwapRemove
pub mod DropDead
pub mod Rounds
pub mod Listen
pub mod Locked
pub mod Outside
pub mod Shared
pub mod Forwarder
pub mod Kept
pub mod Calls
pub mod Steps
pub mod Reachable
pub mod Conversion
pub mod Drops
pub mod Concurrent
pub mod Threads
