-- ===== src/Quic/Session/Keeps/Wakeups.antt =====
-- A relation that the small updates of crates/net/quic/src/state/conn.rs keep is kept by every call.
use hala_rs.Base.{ℕ, ◌-◌, Bool, List, Outcome, ok, err, ltb, if◌then◌else◌}
use hala_rs.Base.Maps.{Nat-Eq}
use hala_rs.Io.ReadBuf.{Bytes}
use hala_rs.Future.EventMap.{cancel, notify_one}
use hala_rs.Quic.Event.{stream_readable, Event-Eq}
use hala_rs.Quic.Api.{
  QuicheError, done, invalid_stream_state, stream_stopped, stream_limit, other_error, Quiche,
}
use hala_rs.Quic.Conn.{QuicConnState, with_conn}
use hala_rs.Quic.Conn.Dropping.{set_ping_instant}
use hala_rs.Quic.Conn.Calls.{Round, Wakeup, then_round, again, woken, dropped, timed_out}
use hala_rs.Quic.Conn.Packets.{
  io_result, is_due, read_after_wait, stream_shutdown, after_close, close,
}
use hala_rs.Quic.Session.Keeps.{if-P, then_round-P}
use hala_rs.Quic.Session.Stable.{Stable}

module _ {C I : Type 0} (Q : Quiche C I) {P : List ℕ → List ℕ → QuicConnState C → Type 0}
    (st : Stable P) (o a : List ℕ) where
  io_result-P :
      (r : Outcome QuicheError (Unit {0}) × C) (s : QuicConnState C)
      → P o a s
      → P o a (io_result r s).1
  io_result-P (ok u, c) s h = st.conn_stable o a c s h
  io_result-P (err e, c) s h = st.conn_stable o a c s h

  pub read_after_wait-P :
      (now : ℕ) (w : Wakeup) (s : QuicConnState C) → P o a s → P o a (read_after_wait Q now w s).1
  unfolding read_after_wait
  read_after_wait-P now woken s h = h
  read_after_wait-P now (dropped e) s h = h
  read_after_wait-P now timed_out s h =
      let r = s.state in
      let due = is_due Q now (Q.timeout_instant r.quiche_conn) in
      let timer = if due then (again, with_conn (Q.on_timeout r.quiche_conn) s) else (again, s) in
      if-P Q st o a {A = Round (Bytes × I)}
        (ltb r.ping_timeout (now - r.send_ack_eliciting_instant))
        (then_round (io_result (Q.send_ack_eliciting r.quiche_conn) s)
          (λ u s. (again, set_ping_instant now s)))
        timer
        (then_round-P Q st o a {B = Bytes × I} (io_result (Q.send_ack_eliciting r.quiche_conn) s)
          (λ u s. (again, set_ping_instant now s))
          (io_result-P (Q.send_ack_eliciting r.quiche_conn) s h)
          (λ u s h. st.ping_stable o a now s h))
        (if-P Q st o a {A = Round (Bytes × I)} due (again, with_conn (Q.on_timeout r.quiche_conn) s)
          (again, s) (st.conn_stable o a (Q.on_timeout r.quiche_conn) s h) h)

  pub stream_shutdown-P :
      (id e : ℕ) (s : QuicConnState C) → P o a s → P o a (stream_shutdown Q id e s).1
  unfolding stream_shutdown
  stream_shutdown-P id e s h =
      let s' = (io_result (Q.stream_shutdown id e s.state.quiche_conn) s).1 in
      st.mediator_stable o a (notify_one (stream_readable id) cancel s'.mediator).1 s'
        (io_result-P (Q.stream_shutdown id e s.state.quiche_conn) s h)

  after_close-P :
      (r : Outcome QuicheError (Unit {0}) × C) (s : QuicConnState C)
      → P o a s
      → P o a (after_close Q r s).1
  after_close-P (ok u, c) s h = st.conn_stable o a c s h
  after_close-P (err done, c) s h = st.conn_stable o a c s h
  after_close-P (err (invalid_stream_state i), c) s h = st.conn_stable o a c s h
  after_close-P (err (stream_stopped i), c) s h = st.conn_stable o a c s h
  after_close-P (err stream_limit, c) s h = st.conn_stable o a c s h
  after_close-P (err (other_error i), c) s h = st.conn_stable o a c s h

  pub close-P :
      (app : Bool) (e : ℕ) (reason : Bytes) (s : QuicConnState C)
      → P o a s
      → P o a (close Q app e reason s).1
  unfolding close
  close-P app e reason s h = after_close-P (Q.close app e reason s.state.quiche_conn) s h
