-- ===== src/Io.antt =====
-- crates/io: the read buffer, the stream that parsers read from, and the error kinds.
pub mod Error
pub mod ReadBuf
pub mod Stream
pub mod Poller
