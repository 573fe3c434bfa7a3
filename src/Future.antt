-- ===== src/Future.antt =====
-- crates/future: the event map and the future batcher.
pub mod EventMap
pub mod Batching
