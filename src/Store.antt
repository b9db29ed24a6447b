-- ===== src/Store.antt =====
-- The clip store, src/store.c: its lock and mapping, its snips, its content directory, and the
-- operations that its users call.
pub mod Lock
pub mod Snips
pub mod Content
pub mod Ops
pub mod State
pub mod Guard
pub mod Init
pub mod Clips
pub mod Faults
pub mod Tests
