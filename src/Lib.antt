-- ===== src/Lib.antt =====
-- Verification of hala-rs, a library of asynchronous networking: models of its parts, and theorems
-- on what they promise.
--
-- The program's parts. crates/net/http parses the heads of requests and responses out of a read
-- buffer (crates/io/src/read_buf.rs) and gives their bodies as readers. crates/net/quic keeps the
-- state of a connection around the state machine of the crate quiche; its tasks wait for events in
-- an event map (crates/future/src/event_map.rs), and its listener reads from all connections through
-- a batcher of futures (crates/future/src/batching.rs). crates/lockfree has the queue that threads
-- share, on which the batcher stands, and the time wheel, on which the timers of the poller of
-- crates/io stand; crates/sync has the locks. The group of sockets of crates/net/udp has one batcher
-- for its reads and one for its writes.
--
-- The files.
--   Base, Base/*        lists, results, maps and sets that all parts share.
--   Io/ReadBuf          crates/io/src/read_buf.rs. `BytesMut` of the crate bytes is a parameter, a
--                       record of its calls and of what their documentation says.
--   Io/Stream           an `AsyncRead` as the list of what its reads deliver.
--   Io/Poller           crates/io/src/mio: the waker tables of `MioPoller` with `poll_once`, then
--                       `nonblocking_call` of the driver, and `MioTimer`. What mio and the time wheel
--                       give is an argument.
--   Http/Scan           the functions on slices of crates/net/http/src/parse.rs: `parse_token`,
--                       `parse_version`, `_skip_newline`, `_skip_newlines` and others.
--   Http/Header         `skip_newlines`, `trim_suffix_spaces` and `parse_header` on the buffer.
--   Http/Driver         the two loops of `Requester::parse` and `Responser::parse`, which differ in
--                       the `match` on the state only; that is a parameter there, a `Machine`.
--   Http/Request        `Requester`: `parse_method`, `parse_uri`, `parse_version`, `parse_header`;
--                       Http/Request/Parse is `parse` itself, and Http/Request/Printed a request as
--                       text. Http/Response is `Responser` likewise.
--   Http/Message        the printed form of header lines; Http/Suffix the relation of what is left.
--   Http/Body           crates/net/http/src/body.rs: `into_read` and `into_bytes`.
--   Lockfree/Queue      crates/lockfree/src/queue.rs: each atomic access is a step of one thread, and
--                       a run is any sequence of the threads' steps.
--   Lockfree/TimeWheel  crates/lockfree/src/timewheel.rs: `new_timer` and `next_tick`, likewise; the
--                       clock moves between the steps.
--   Sync/Spin           crates/sync/src/spin.rs: `SpinMutex`, likewise.
--   Sync/Maker          crates/sync/src/maker.rs: the asynchronous lock and its mediator, likewise.
--   Future/EventMap     crates/future/src/event_map.rs: `notify_one`, `notify_all`, `notify_any`,
--                       `wait_cancel`, `drop`, and `Wait::poll`.
--   Future/Batching     crates/future/src/batching.rs: `push`, the wakers, `close` and `Wait::poll` as
--                       steps of threads.
--   Quic/Api            crates/net/quic/src/errors.rs, and `quiche::Connection` as a parameter.
--   Quic/Event, Quic/Conn
--                       crates/net/quic/src/state/conn.rs: the state and its handlers. Conn/Dropping
--                       has the closing of streams and the ping timer, Conn/Calls the calls on
--                       streams, Conn/Packets `read`, `write` and the calls on the connection.
--   Quic/Acceptor       `QuicAcceptor` of crates/net/quic/src/state/listener.rs: `handshake`,
--                       `client_hello`, `retry`, `validate_token` and `mint_token`.
--   Quic/Listener       `QuicListenerState` there: Listener has `close` and the small updates,
--                       Listener/Calls `write`, `accept` and `read`, and Listener/Runs any sequence of
--                       calls. A handle stands for a shared `QuicConnState`. Listener/Loop is the
--                       receiving task of crates/net/quic/src/listener.rs.
--   Quic/Connector      crates/net/quic/src/state/connector.rs and `connect_with` of
--                       crates/net/quic/src/conn.rs, with what the socket does as an argument.
--   Quic/Pool           crates/net/quic/src/conn_pool.rs: `find_avalid_conn` and `open_stream`.
--   Quic/Session        any sequence of such calls; Session/Keeps shows that what the small updates
--                       keep is kept by every call.
--   Udp/Group           crates/net/udp/src/group.rs: `bind`, `recv_from`, `send_to` and
--                       `send_to_on_path`. The operations that a wait polls, with what the driver
--                       gives them, are an argument; Group/Exchange has any sequence of calls.
--   Tests               the theorems at concrete inputs.
--
-- Bounds and fuel. The read loop has fuel for each read and each byte that the stream has left, and
-- one more; the inner loop for the bytes in the buffer and the rank of the state. `into_bytes` has
-- the first. The draining of a half closed stream has fuel for its unread bytes: quiche is assumed
-- to take some of them with every read with room that does not end the stream. Where quiche gives an
-- empty quantum as the size of that room, as it does without an active path, the draining may not end,
-- and the handling of the packet has no result; a session goes on from the state before. Indices of the queue, stream ids and times are numbers
-- without a bound.
--
-- Conventions. A call that waits is one round of its loop, from taking the lock to the result or the
-- wait; what it does when it wakes is a function of its own. Hash maps are lists of pairs, and hash
-- sets are lists; draining one goes in the order of the list. Log output has no model.
--
-- Not modelled: the tasks of crates/net/quic that move packets between sockets and states; the handles
-- and the dispatch of the io driver of crates/io, which pass calls to the parts above; the wrappers of
-- system calls and of C libraries in crates/net/tcp, crates/net/tls, crates/leveldb, crates/pprof and,
-- beside the group of sockets, crates/net/udp; crates/rproxy, crates/ops, crates/test and hala, which are glue.
pub mod Base
pub mod Io
pub mod Lockfree
pub mod Future
pub mod Http
pub mod Quic
pub mod Sync
pub mod Udp
pub mod Tests
