-- ===== src/Http.antt =====
-- crates/net/http: the request and response parsers and the body reader.
pub mod Scan
pub mod Api
pub mod Suffix
pub mod Header
pub mod Message
pub mod Driver
pub mod Request
pub mod Response
pub mod Body
