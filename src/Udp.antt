-- ===== src/Udp.antt =====
-- crates/net/udp: the group of sockets.
pub mod Group
