-- ===== src/Tests.antt =====
-- The theorems at concrete inputs.
mod Fixtures
mod Http
mod Quic
mod Listener
mod Client
mod Queue
mod Poller
mod Events
mod Batching
mod Spin
mod Maker
mod TimeWheel
mod Udp
