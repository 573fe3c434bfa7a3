-- ===== src/Quic.antt =====
-- crates/net/quic/src: the state machine of one connection.
pub mod Api
pub mod Event
pub mod Conn
pub mod Session
pub mod Acceptor
pub mod Listener
pub mod Connector
pub mod Pool
