-- ===== src/Sync.antt =====
-- crates/sync/src: the spin lock.
pub mod Spin
pub mod Maker
