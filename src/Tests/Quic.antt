-- ===== src/Tests/Quic.antt =====
-- The theorems on crates/net/quic/src/state/conn.rs over a quiet connection: it never fails, has no
-- data, and refuses the fin of stream 4.
use hala_rs.Base.{
  ℕ, ◌-◌, ◌≡◌, ◌↔◌, ◌⊎◌, refl, ap, true, false, Bool, none, some, List, [], ◌∷◌, Outcome, ok, err,
  arith, ◌==◌, if◌then◌else◌, length,
}
use mathlib.Core.Option.{map}
use hala_rs.Base.Maps.{Nat-Eq, Text-Eq, lookup}
use hala_rs.Base.Sets.{contains, Nodup}
use hala_rs.Io.ReadBuf.{Bytes}
use hala_rs.Quic.Event.{Event-Eq, stream_writable}
use hala_rs.Quic.Acceptor.{
  SocketAddr, v4, Header, initial, Server, validate_token, mint_token, handshake,
}
use hala_rs.Quic.Acceptor.Token.{validate_token_iff}
use hala_rs.Quic.Acceptor.Pending.{Sorted, handshake-Sorted}
use hala_rs.Quic.Api.{Quiche, QuicheError, done}
use hala_rs.Quic.Conn.{QuicConnState, new}
use hala_rs.Quic.Conn.Dropping.{handle_dropping_streams, handle_send_timout}
use hala_rs.Quic.Conn.Calls.{open_stream, close_stream}
use hala_rs.Quic.Conn.Packets.{peer_streams_left_bidi}
use hala_rs.Quic.Conn.Closing.{dropping_streams_kept, send_timeout_bounds, Timed}
use hala_rs.Quic.Session.{Call, opening, accepting, closing, run}
use hala_rs.Quic.Session.Ids.{start, stream_ids, accept_once, open_stream_ids}
use hala_rs.Quic.Session.Limits.{peer_streams_left-open_stream}

abbrev pub the_error : Outcome QuicheError (Bytes × Bool)
the_error = err done

pub not_data : (bs : Bytes) → the_error ≡ ok (bs, false) → ⊥
not_data bs e = cc

abbrev pub quiet : Quiche ℕ ℕ
quiet = record {
  is_closed = λ c. false;
  is_draining = λ c. false;
  is_timed_out = λ c. false;
  is_established = λ c. true;
  readable = λ c. 1 ∷ 5 ∷ [];
  stream_readable_next = λ c. (none, c);
  stream_writable_next = λ c. (none, c);
  send_ack_eliciting = λ c. (ok tt, c);
  timeout = λ now c. some 20;
  timeout_instant = λ c. none;
  on_timeout = λ c. c;
  stream_send = λ id buf fin c. (if id == 4 then err done else ok (length buf), c);
  stream_recv = λ id n c. (err done, c);
  send = λ n c. (err done, c);
  recv = λ buf c. (ok (length buf), c);
  stream_shutdown = λ id e c. (ok tt, c);
  close = λ app e reason c. (ok tt, c);
  stream_finished = λ id c. false;
  peer_streams_left_bidi = λ c. 3;
  initial_max_streams_bidi = λ c. some 9;
  send_quantum = λ c. 64;
  unread = λ id c. 0;
  unread-stream_recv = λ id n c c' bs r e. absurd (not_data bs (ap (λ p. p.0) e));
}

abbrev calls : List Call
calls = opening ∷ accepting ∷ opening ∷ accepting ∷ accepting ∷ []

accept_once_example : Nodup (run quiet calls (start (new quiet 0 50 4 0))).accepted
accept_once_example =
    accept_once quiet 0 50 4 0 (refl, (refl, tt))
      (λ e. absurd (omega (arith, e)), (λ e. absurd (omega (arith, e)), tt)) calls

open_stream_ids_example :
    (run quiet calls (start (new quiet 0 50 4 0))).opened
    ≡ stream_ids 4 (length (run quiet calls (start (new quiet 0 50 4 0))).opened)
open_stream_ids_example = open_stream_ids quiet 0 50 4 0 calls

peer_streams_left-open_stream_example :
    peer_streams_left_bidi quiet
      (open_stream quiet (run quiet (opening ∷ []) (start (new quiet 0 50 4 0))).conn).1
    ≡ map
        (λ n. n - 1)
        (peer_streams_left_bidi quiet (run quiet (opening ∷ []) (start (new quiet 0 50 4 0))).conn)
peer_streams_left-open_stream_example =
    peer_streams_left-open_stream quiet 0 50 4 0 (opening ∷ []) refl

abbrev closing_two : QuicConnState ℕ
closing_two = (run quiet (closing 4 ∷ closing 8 ∷ []) (start (new quiet 0 50 12 0))).conn

dropping_streams_kept_example :
    let s' = (handle_dropping_streams quiet 7 closing_two).1 in
    (contains 8 s'.state.dropping_stream_queue ≡ true)
    ⊎ ((lookup (stream_writable 8) s'.mediator.wakers ≡ none)
        × ((t : ℕ) × (lookup 8 s'.state.half_closed_streams ≡ some t)))
unfolding run close_stream new
dropping_streams_kept_example = dropping_streams_kept quiet 8 7 closing_two refl

abbrev half_closed : QuicConnState ℕ
half_closed =
    let s = new quiet 0 50 12 0 in
    record s { state = record s.state { half_closed_streams = (8, 7) ∷ [] } }

send_timeout_bounds_example :
    Timed quiet 30 (new quiet 0 50 4 0).state (handle_send_timout quiet 30 (new quiet 0 50 4 0))
unfolding new
send_timeout_bounds_example = send_timeout_bounds quiet 30 (new quiet 0 50 4 0) (omega arith)

abbrev pub peer : SocketAddr
peer = record { ip = v4 (127 ∷ 0 ∷ 0 ∷ 1 ∷ []); port = 80 }

abbrev pub header : Header
header = record { ty = initial []; version = 1; dcid = 5 ∷ 6 ∷ []; scid = 7 ∷ [] }

-- It accepts every connection.
abbrev pub server : Server ℕ ℕ
server = record {
  header_from_slice = λ bs. ok header;
  version_is_supported = λ v. true;
  max_conn_id_len = 2;
  accept = λ scid odcid info. ok 0;
  retry = λ scid dcid new_scid token v. ok token;
  negotiate_version = λ scid dcid. ok [];
  sign = λ bs. 1 ∷ 2 ∷ 3 ∷ [];
  send_info = λ from to. 0;
}

validate_token_iff_example :
    (validate_token (mint_token header peer) peer ≡ ok (5 ∷ 6 ∷ []))
    ↔ (mint_token header peer ≡ mint_token header peer)
validate_token_iff_example = validate_token_iff (mint_token header peer) peer header

no_conns : (id : Bytes) (c : ℕ) → lookup id [] ≡ some c → quiet.is_established c ≡ false
unfolding lookup
no_conns id c e = cc

handshake-Sorted_example :
    Sorted quiet server
      (handshake quiet server (1 ∷ 2 ∷ []) 2 (record { from = peer; to = peer }) [])
handshake-Sorted_example =
    handshake-Sorted quiet server (1 ∷ 2 ∷ []) 2 (record { from = peer; to = peer }) [] no_conns
