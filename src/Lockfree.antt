-- ===== src/Lockfree.antt =====
-- crates/lockfree: the FIFO queue and the hashed time wheel.
pub mod Queue
pub mod TimeWheel
