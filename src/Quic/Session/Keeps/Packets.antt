-- ===== src/Quic/Session/Keeps/Packets.antt =====
-- A relation that the small updates of crates/net/quic/src/state/conn.rs keep is kept by every call.
use hala_rs.Base.{ℕ, ◌-◌, true, Option, none, some, List, [], ◌∷◌, ◌++◌, Outcome, ok, err, ltb}
use hala_rs.Base.Maps.{insert, Nat-Eq}
use hala_rs.Io.ReadBuf.{Bytes}
use hala_rs.Future.EventMap.{cancel, notify_all}
use hala_rs.Quic.Event.{stream_readable, stream_writable, Event-Eq}
use hala_rs.Quic.Api.{
  QuicheError, done, invalid_stream_state, stream_stopped, stream_limit, other_error, Quiche,
}
use hala_rs.Quic.Conn.{QuicConnState, with_conn, handle_quic_conn_status}
use hala_rs.Quic.Conn.Dropping.{
  next_timeout, cancel_stream, half_close, after_fin, after_ping, drop_loop,
  handle_dropping_streams, handle_send_timout,
}
use hala_rs.Quic.Conn.Calls.{then_round}
use hala_rs.Quic.Conn.Packets.{wait_readable, after_send, read}
use hala_rs.Quic.Session.Keeps.{if-P, then_round-P, status-P}
use hala_rs.Quic.Session.Keeps.Streams.{fail_with-P}
use hala_rs.Quic.Session.Stable.{Stable, with_queue}

module _ {C I : Type 0} (Q : Quiche C I) {P : List ℕ → List ℕ → QuicConnState C → Type 0}
    (st : Stable P) (o a : List ℕ) where
  half_close-P : (id now : ℕ) (s : QuicConnState C) → P o a s → P o a (half_close id now s)
  unfolding half_close
  half_close-P id now s h =
      let s' = cancel_stream id s in
      st.half_closed_stable o a (insert id now s.state.half_closed_streams) s' (
        st.mediator_stable o a
          (notify_all (stream_writable id ∷ stream_readable id ∷ []) cancel s.mediator) s h)

  after_fin-P :
      (id now : ℕ) (r : Outcome QuicheError ℕ × C) (s : QuicConnState C)
      (rest : QuicConnState C → List ℕ × QuicConnState C)
      → P o a s
      → ((s : QuicConnState C) → P o a s → P o a (rest s).1)
      → P o a (after_fin id now r s rest).1
  after_fin-P id now (ok n, c) s rest h g =
      g (half_close id now (with_conn c s))
        (half_close-P id now (with_conn c s) (st.conn_stable o a c s h))
  after_fin-P id now (err done, c) s rest h g = g (with_conn c s) (st.conn_stable o a c s h)
  after_fin-P id now (err (invalid_stream_state i), c) s rest h g =
      g (half_close id now (with_conn c s))
        (half_close-P id now (with_conn c s) (st.conn_stable o a c s h))
  after_fin-P id now (err (stream_stopped i), c) s rest h g =
      g (half_close id now (with_conn c s))
        (half_close-P id now (with_conn c s) (st.conn_stable o a c s h))
  after_fin-P id now (err stream_limit, c) s rest h g =
      g (half_close id now (with_conn c s))
        (half_close-P id now (with_conn c s) (st.conn_stable o a c s h))
  after_fin-P id now (err (other_error i), c) s rest h g =
      g (half_close id now (with_conn c s))
        (half_close-P id now (with_conn c s) (st.conn_stable o a c s h))

  drop_loop-P :
      (now : ℕ) (ids : List ℕ) (s : QuicConnState C) → P o a s → P o a (drop_loop Q now ids s).1
  unfolding drop_loop
  drop_loop-P now [] s h = h
  drop_loop-P now (id ∷ ids) s h =
      after_fin-P id now (Q.stream_send id [] true s.state.quiche_conn) s
        (λ s. drop_loop Q now ids s) h (λ s h. drop_loop-P now ids s h)

  dropping-P : (now : ℕ) (s : QuicConnState C) → P o a s → P o a (handle_dropping_streams Q now s).1
  unfolding handle_dropping_streams
  dropping-P now s h =
      let r = drop_loop Q now s.state.dropping_stream_queue (with_queue [] s) in
      st.queue_stable o a (r.1.state.dropping_stream_queue ++ r.0) r.1 (
        drop_loop-P now s.state.dropping_stream_queue (with_queue [] s)
          (st.queue_stable o a [] s h))

  after_ping-P :
      (now : ℕ) (r : Outcome QuicheError (Unit {0}) × C) (s : QuicConnState C)
      → P o a s
      → P o a (after_ping now r s).1
  after_ping-P now (ok u, c) s h = st.ping_stable o a now (with_conn c s) (st.conn_stable o a c s h)
  after_ping-P now (err e, c) s h = st.conn_stable o a c s h

  timeout-P : (now : ℕ) (s : QuicConnState C) → P o a s → P o a (handle_send_timout Q now s).1
  unfolding handle_send_timout
  timeout-P now s h =
      let r = s.state in
      let elapsed = now - r.send_ack_eliciting_instant in
      if-P Q st o a (ltb r.ping_timeout elapsed)
        (after_ping now (Q.send_ack_eliciting r.quiche_conn) s)
        (ok (some (next_timeout (r.ping_timeout - elapsed) (Q.timeout now r.quiche_conn))), s)
        (after_ping-P now (Q.send_ack_eliciting r.quiche_conn) s h) h

  wait_readable-P :
      (t : Option ℕ) (s : QuicConnState C) → P o a s → P o a (wait_readable {A = Bytes × I} t s).1
  wait_readable-P none s h = h
  wait_readable-P (some t) s h = h

  after_send-P :
      (now : ℕ) (r : Outcome QuicheError (Bytes × I) × C) (s : QuicConnState C)
      → P o a s
      → P o a (after_send Q now r s).1
  after_send-P now (ok r, c) s h = st.ping_stable o a now (with_conn c s) (st.conn_stable o a c s h)
  after_send-P now (err done, c) s h =
      then_round-P Q st o a {B = Bytes × I} (handle_send_timout Q now (with_conn c s)) wait_readable
        (timeout-P now (with_conn c s) (st.conn_stable o a c s h)) (λ t s h. wait_readable-P t s h)
  after_send-P now (err (invalid_stream_state i), c) s h =
      fail_with-P Q st o a (Bytes × I) (invalid_stream_state i) (with_conn c s)
        (st.conn_stable o a c s h)
  after_send-P now (err (stream_stopped i), c) s h =
      fail_with-P Q st o a (Bytes × I) (stream_stopped i) (with_conn c s) (st.conn_stable o a c s h)
  after_send-P now (err stream_limit, c) s h =
      fail_with-P Q st o a (Bytes × I) stream_limit (with_conn c s) (st.conn_stable o a c s h)
  after_send-P now (err (other_error i), c) s h =
      fail_with-P Q st o a (Bytes × I) (other_error i) (with_conn c s) (st.conn_stable o a c s h)

  pub read-P : (now n : ℕ) (s : QuicConnState C) → P o a s → P o a (read Q now n s).1
  unfolding read
  read-P now n s h =
      then_round-P Q st o a (handle_quic_conn_status Q s)
        (λ u s.
          then_round (handle_dropping_streams Q now s)
            (λ v s. after_send Q now (Q.send n s.state.quiche_conn) s))
        (status-P Q st o a s h)
        (λ u s h.
          then_round-P Q st o a (handle_dropping_streams Q now s)
            (λ v s. after_send Q now (Q.send n s.state.quiche_conn) s) (dropping-P now s h)
            (λ v s h. after_send-P now (Q.send n s.state.quiche_conn) s h))
