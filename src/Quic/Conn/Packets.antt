-- ===== src/Quic/Conn/Packets.antt =====
-- crates/net/quic/src/state/conn.rs: the packets read from a connection and written to it, and the
-- calls on the connection as a whole.
use hala_rs.Base.{
  ℕ, ◌-◌, Bool, false, ◌||◌, Option, none, some, [], Outcome, ok, err, ltb, leb, ◌==◌,
  if◌then◌else◌, length,
}
use hala_rs.Io.ReadBuf.{Bytes}
use hala_rs.Future.EventMap.{cancel}
use hala_rs.Quic.Event.{readable, stream_readable, Event-Eq}
use hala_rs.Quic.Api.{QuicheError, done, Quiche, into_io_error, quiche_error, event_map_error}
use hala_rs.Quic.Conn.{
  QuicConnState, Handled, with_conn, notify, handle_quic_conn_status, handle_stream_events,
}
use hala_rs.Quic.Conn.Dropping.{
  handle_dropping_streams, handle_half_closed_streams, handle_send_timout, set_ping_instant,
  set_half_closed,
}
use hala_rs.Quic.Conn.Calls.{
  Round, finished, waiting, again, Wakeup, woken, dropped, timed_out, then_round, finish, fail_with,
}

abbrev pub streams_left : ℕ → ℕ → Option ℕ → Option ℕ
streams_left left cached none = none
streams_left left cached (some initial) =
    some
      (if ltb cached left then if initial == left then left - cached - 1 else left - cached else 0)

module _ {C : Type 0} where
  -- `map_err(into_io_error)` on a call of quiche.
  abbrev pub io_result : {A : Type 0} → Outcome QuicheError A × C → QuicConnState C → Handled C A
  io_result (ok a, c) s = (ok a, with_conn c s)
  io_result (err e, c) s = (err (into_io_error (quiche_error e)), with_conn c s)

  abbrev pub wait_readable : {A : Type 0} → Option ℕ → QuicConnState C → Round A × QuicConnState C
  wait_readable none s = (again, s)
  wait_readable (some t) s = (waiting readable (some t), s)

module _ {C I : Type 0} (Q : Quiche C I) where
  abbrev pub after_send :
      ℕ
      → Outcome QuicheError (Bytes × I) × C
      → QuicConnState C
      → Round (Bytes × I) × QuicConnState C
  after_send now (ok r, c) s = (finished (ok r), set_ping_instant now (with_conn c s))
  after_send now (err done, c) s =
      then_round (handle_send_timout Q now (with_conn c s)) wait_readable
  after_send now (err e, c) s = finish (fail_with Q e (with_conn c s))

  unfoldable pub read : ℕ → ℕ → QuicConnState C → Round (Bytes × I) × QuicConnState C
  unfolding handle_quic_conn_status handle_dropping_streams handle_send_timout
  read now n s = then_round (handle_quic_conn_status Q s) (λ u s.
      then_round (handle_dropping_streams Q now s)
        (λ v s. after_send now (Q.send n s.state.quiche_conn) s))

  abbrev pub is_due : ℕ → Option ℕ → Bool
  is_due now none = false
  is_due now (some t) = leb t now

  -- `read` after its wait, the lock taken again where the time is over.
  unfoldable pub read_after_wait :
      ℕ → Wakeup → QuicConnState C → Round (Bytes × I) × QuicConnState C
  read_after_wait now woken s = (again, s)
  read_after_wait now (dropped e) s = (finished (err (into_io_error (event_map_error e))), s)
  read_after_wait now timed_out s =
      let r = s.state in
      if ltb r.ping_timeout (now - r.send_ack_eliciting_instant)
      then then_round (io_result (Q.send_ack_eliciting r.quiche_conn) s)
          (λ u s. (again, set_ping_instant now s))
      else if is_due now (Q.timeout_instant r.quiche_conn)
      then (again, with_conn (Q.on_timeout r.quiche_conn) s)
      else (again, s)

  abbrev pub drain_half_closed : QuicConnState C → Option (QuicConnState C)
  drain_half_closed s =
      handle_half_closed_streams Q s.state.half_closed_streams (set_half_closed [] s)

  abbrev pub with_result : {A : Type 0} → A → Option (QuicConnState C) → Option (Handled C A)
  with_result a none = none
  with_result a (some s) = some (ok a, s)

  abbrev pub after_events : ℕ → Handled C (Unit {0}) → Option (Handled C ℕ)
  after_events n (err e, s) = some (err e, s)
  after_events n (ok u, s) = with_result n (drain_half_closed s)

  abbrev pub after_recv_packet : Outcome QuicheError ℕ × C → QuicConnState C → Option (Handled C ℕ)
  after_recv_packet (ok n, c) s = after_events n (handle_stream_events Q (with_conn c s))
  after_recv_packet (err e, c) s = some (fail_with Q e (with_conn c s))

  abbrev pub write_open : Bytes → Handled C (Unit {0}) → Option (Handled C ℕ)
  write_open buf (err e, s) = some (err e, s)
  write_open buf (ok u, s) = after_recv_packet (Q.recv buf s.state.quiche_conn) s

  -- `none` is a stream whose draining does not end, which takes an empty quantum of quiche.
  unfoldable pub write : Bytes → QuicConnState C → Option (Handled C ℕ)
  unfolding handle_quic_conn_status handle_stream_events handle_half_closed_streams
  write buf s = write_open buf (handle_quic_conn_status Q s)

  unfoldable pub stream_shutdown : ℕ → ℕ → QuicConnState C → Handled C (Unit {0})
  stream_shutdown id e s =
      let (r, s') = io_result (Q.stream_shutdown id e s.state.quiche_conn) s in
      (r, notify (stream_readable id) cancel s')

  abbrev pub after_close :
      Outcome QuicheError (Unit {0}) × C → QuicConnState C → Handled C (Unit {0})
  after_close (ok u, c) s = (ok tt, with_conn c s)
  after_close (err done, c) s = (ok tt, with_conn c s)
  after_close (err e, c) s = (err (into_io_error (quiche_error e)), with_conn c s)

  unfoldable pub close : Bool → ℕ → Bytes → QuicConnState C → Handled C (Unit {0})
  close app e reason s = after_close (Q.close app e reason s.state.quiche_conn) s

  unfoldable pub is_closed : QuicConnState C → Bool
  is_closed s = Q.is_closed s.state.quiche_conn || Q.is_draining s.state.quiche_conn

  -- `none` is the panic of `unwrap`.
  unfoldable pub peer_streams_left_bidi : QuicConnState C → Option ℕ
  peer_streams_left_bidi s =
      streams_left (Q.peer_streams_left_bidi s.state.quiche_conn)
        (length s.state.register_outgoing_stream_ids)
        (Q.initial_max_streams_bidi s.state.quiche_conn)
