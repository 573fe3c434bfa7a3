-- ===== src/Quic/Api.antt =====
-- The quiche crate's `Connection` as an interface, and crates/net/quic/src/errors.rs: the kind of
-- the `io::Error` that each error becomes.
use hala_rs.Base.{ℕ, ◌<◌, ◌≡◌, Bool, false, Option, List, Outcome, ok}
use hala_rs.Io.Error.{ErrorKind, other, broken_pipe, unexpected_eof}
use hala_rs.Io.ReadBuf.{Bytes}
use hala_rs.Future.EventMap.{EventMapError, cancelled, destroyed}

-- `quiche::Error`, with every variant that the crate does not name as `other_error`.
pub data QuicheError : Type 0 where
  done : QuicheError
  invalid_stream_state : ℕ → QuicheError
  stream_stopped : ℕ → QuicheError
  stream_limit : QuicheError
  other_error : ℕ → QuicheError

-- `C` is the type of `quiche::Connection`, `I` that of `SendInfo`. A call returns the connection
-- after it also where it fails. Instants and durations are numbers of one unit of time.
pub record Quiche (C I : Type 0) : Type 0 where
  pub is_closed : C → Bool
  pub is_draining : C → Bool
  pub is_timed_out : C → Bool
  pub is_established : C → Bool
  pub readable : C → List ℕ
  pub stream_readable_next : C → Option ℕ × C
  pub stream_writable_next : C → Option ℕ × C
  pub send_ack_eliciting : C → Outcome QuicheError (Unit {0}) × C
  pub timeout : ℕ → C → Option ℕ
  pub timeout_instant : C → Option ℕ
  pub on_timeout : C → C
  pub stream_send : ℕ → Bytes → Bool → C → Outcome QuicheError ℕ × C
  pub stream_recv : ℕ → ℕ → C → Outcome QuicheError (Bytes × Bool) × C
  pub send : ℕ → C → Outcome QuicheError (Bytes × I) × C
  pub recv : Bytes → C → Outcome QuicheError ℕ × C
  pub stream_shutdown : ℕ → ℕ → C → Outcome QuicheError (Unit {0}) × C
  pub close : Bool → ℕ → Bytes → C → Outcome QuicheError (Unit {0}) × C
  pub stream_finished : ℕ → C → Bool
  pub peer_streams_left_bidi : C → ℕ
  -- Of the transport parameters of the peer, which come with the handshake.
  pub initial_max_streams_bidi : C → Option ℕ
  pub send_quantum : C → ℕ
  -- The bytes received on a stream and not yet read: a read with
  -- room that does not end the stream takes some.
  pub unread : ℕ → C → ℕ
  pub unread-stream_recv :
      (id n : ℕ) (c c' : C) (bs : Bytes)
      → 0 < n
      → stream_recv id n c ≡ (ok (bs, false), c')
      → unread id c' < unread id c

pub data HalaIoError : Type 0 where
  std_io_error : ErrorKind → HalaIoError
  send_error : HalaIoError
  quiche_error : QuicheError → HalaIoError
  event_map_error : EventMapError → HalaIoError
  unspecified : HalaIoError

abbrev pub quiche_kind : QuicheError → ErrorKind
quiche_kind (stream_stopped id) = broken_pipe
quiche_kind (invalid_stream_state id) = broken_pipe
quiche_kind stream_limit = other
quiche_kind done = other
quiche_kind (other_error n) = other

abbrev pub into_io_error : HalaIoError → ErrorKind
into_io_error send_error = broken_pipe
into_io_error (std_io_error e) = e
into_io_error (quiche_error e) = quiche_kind e
into_io_error unspecified = other
into_io_error (event_map_error cancelled) = unexpected_eof
into_io_error (event_map_error destroyed) = unexpected_eof
