-- ===== src/Quic/Session/Keeps/Streams.antt =====
-- A relation that the small updates of crates/net/quic/src/state/conn.rs keep is kept by every call.
use hala_rs.Base.{
  ℕ, ◌%◌, Bool, true, false, none, List, [], ◌∷◌, ◌++◌, Outcome, ok, err, ◌==◌, if◌then◌else◌,
}
use hala_rs.Base.Maps.{Nat-Eq}
use hala_rs.Base.Sets.{contains, discard}
use hala_rs.Io.ReadBuf.{Bytes}
use hala_rs.Future.EventMap.{cancel, notify_all}
use hala_rs.Quic.Event.{stream_readable, stream_writable, Event-Eq}
use hala_rs.Quic.Api.{
  QuicheError, done, invalid_stream_state, stream_stopped, stream_limit, other_error, Quiche,
  into_io_error, quiche_error,
}
use hala_rs.Quic.Conn.{
  QuicConnState, with_conn, and_then, handle_quic_conn_status, notify_readable,
  handle_stream_status, handle_stream_events,
}
use hala_rs.Quic.Conn.Calls.{
  Round, then_round, set_outgoing, closing_state, fail_with, events_then_readable,
  after_stream_send, stream_send, stream_recv_wait, after_stream_recv, stream_recv, close_stream,
  finished, waiting,
}
use hala_rs.Quic.Session.Keeps.{
  if-P, and_then-P, then_round-P, status-P, notify_readable-P, handle_stream_status-P, events-P,
}
use hala_rs.Quic.Session.Stable.{Stable, with_queue}

module _ {C I : Type 0} (Q : Quiche C I) {P : List ℕ → List ℕ → QuicConnState C → Type 0}
    (st : Stable P) (o a : List ℕ) where
  events_then_readable-P :
      {A : Type 0} (r : A) (s : QuicConnState C) → P o a s → P o a (events_then_readable Q r s).1
  events_then_readable-P r s h =
      and_then-P Q st o a (handle_stream_events Q s)
        (λ u s. and_then (notify_readable Q s) (λ v s. (ok r, s))) (events-P Q st o a s h)
        (λ u s h.
          and_then-P Q st o a (notify_readable Q s) (λ v s. (ok r, s))
            (notify_readable-P Q st o a s h) (λ v s h. h))

  pub fail_with-P :
      (A : Type 0) (e : QuicheError) (s : QuicConnState C)
      → P o a s
      → P o a (fail_with Q {A = A} e s).1
  fail_with-P A e s h =
      and_then-P Q st o a {B = A} (handle_quic_conn_status Q s)
        (λ u s. (err (into_io_error (quiche_error e)), s)) (status-P Q st o a s h) (λ u s h. h)

  after_stream_send-P :
      (id : ℕ) (r : Outcome QuicheError ℕ × C) (s : QuicConnState C)
      → P o a s
      → P o a (after_stream_send Q id r s).1
  after_stream_send-P id (ok n, c) s h =
      let s' = with_conn c s in
      let kept = st.conn_stable o a c s h in
      elim (s.state.lastest_outgoing_stream_id % 2 == id % 2)
        as (λ t.
          P o a
            (events_then_readable Q n (
              if t
              then set_outgoing (discard id s.state.register_outgoing_stream_ids) s'
              else s')).1) [
                | true ↦ events_then_readable-P n _ (st.discard_stable o a id s' kept)
                | false ↦ events_then_readable-P n s' kept
              ]
  after_stream_send-P id (err done, c) s h =
      then_round-P Q st o a {B = ℕ} (events_then_readable Q tt (with_conn c s))
        (λ u s. (waiting (stream_writable id) none, s))
        (events_then_readable-P tt (with_conn c s) (st.conn_stable o a c s h)) (λ u s h. h)
  after_stream_send-P id (err (invalid_stream_state i), c) s h =
      fail_with-P ℕ (invalid_stream_state i) (with_conn c s) (st.conn_stable o a c s h)
  after_stream_send-P id (err (stream_stopped i), c) s h =
      fail_with-P ℕ (stream_stopped i) (with_conn c s) (st.conn_stable o a c s h)
  after_stream_send-P id (err stream_limit, c) s h =
      fail_with-P ℕ stream_limit (with_conn c s) (st.conn_stable o a c s h)
  after_stream_send-P id (err (other_error i), c) s h =
      fail_with-P ℕ (other_error i) (with_conn c s) (st.conn_stable o a c s h)

  pub stream_send-P :
      (id : ℕ) (buf : Bytes) (fin : Bool) (s : QuicConnState C)
      → P o a s
      → P o a (stream_send Q id buf fin s).1
  unfolding stream_send
  stream_send-P id buf fin s h =
      then_round-P Q st o a (handle_quic_conn_status Q s)
        (λ u s.
          then_round (handle_stream_status Q id s)
            (λ v s. after_stream_send Q id (Q.stream_send id buf fin s.state.quiche_conn) s))
        (status-P Q st o a s h)
        (λ u s h.
          then_round-P Q st o a (handle_stream_status Q id s)
            (λ v s. after_stream_send Q id (Q.stream_send id buf fin s.state.quiche_conn) s)
            (handle_stream_status-P Q st o a id s h)
            (λ v s h. after_stream_send-P id (Q.stream_send id buf fin s.state.quiche_conn) s h))

  stream_recv_wait-P :
      (A : Type 0) (id : ℕ) (s : QuicConnState C)
      → P o a s
      → P o a (stream_recv_wait Q {A = A} id s).1
  stream_recv_wait-P A id s h =
      then_round-P Q st o a {B = A} (notify_readable Q s)
        (λ u s. (waiting (stream_readable id) none, s)) (notify_readable-P Q st o a s h)
        (λ u s h. h)

  events_then_fail-P :
      (e : QuicheError) (s : QuicConnState C)
      → P o a s
      → P o a
          (then_round {B = Bytes × Bool}
            (handle_stream_events Q s)
            (λ u s. (finished (err (into_io_error (quiche_error e))), s))).1
  events_then_fail-P e s h =
      then_round-P Q st o a {B = Bytes × Bool} (handle_stream_events Q s)
        (λ u s. (finished (err (into_io_error (quiche_error e))), s)) (events-P Q st o a s h)
        (λ u s h. h)

  after_stream_recv-P :
      (id : ℕ) (r : Outcome QuicheError (Bytes × Bool) × C) (s : QuicConnState C)
      → P o a s
      → P o a (after_stream_recv Q id r s).1
  after_stream_recv-P id (ok r, c) s h =
      events_then_readable-P r (with_conn c s) (st.conn_stable o a c s h)
  after_stream_recv-P id (err done, c) s h =
      then_round-P Q st o a (handle_stream_events Q (with_conn c s))
        (λ u s. stream_recv_wait Q {A = Bytes × Bool} id s)
        (events-P Q st o a (with_conn c s) (st.conn_stable o a c s h))
        (λ u s h. stream_recv_wait-P (Bytes × Bool) id s h)
  after_stream_recv-P id (err (invalid_stream_state i), c) s h =
      if-P Q st o a {A = Round (Bytes × Bool)} (contains id s.state.register_outgoing_stream_ids)
        (stream_recv_wait Q id (with_conn c s))
        (finished (err (into_io_error (quiche_error (invalid_stream_state id)))), with_conn c s)
        (stream_recv_wait-P (Bytes × Bool) id (with_conn c s) (st.conn_stable o a c s h))
        (st.conn_stable o a c s h)
  after_stream_recv-P id (err (stream_stopped i), c) s h =
      events_then_fail-P (stream_stopped i) (with_conn c s) (st.conn_stable o a c s h)
  after_stream_recv-P id (err stream_limit, c) s h =
      events_then_fail-P stream_limit (with_conn c s) (st.conn_stable o a c s h)
  after_stream_recv-P id (err (other_error i), c) s h =
      events_then_fail-P (other_error i) (with_conn c s) (st.conn_stable o a c s h)

  pub stream_recv-P : (id n : ℕ) (s : QuicConnState C) → P o a s → P o a (stream_recv Q id n s).1
  unfolding stream_recv
  stream_recv-P id n s h =
      then_round-P Q st o a (handle_quic_conn_status Q s)
        (λ u s.
          then_round (handle_stream_status Q id s)
            (λ v s. after_stream_recv Q id (Q.stream_recv id n s.state.quiche_conn) s))
        (status-P Q st o a s h)
        (λ u s h.
          then_round-P Q st o a (handle_stream_status Q id s)
            (λ v s. after_stream_recv Q id (Q.stream_recv id n s.state.quiche_conn) s)
            (handle_stream_status-P Q st o a id s h)
            (λ v s h. after_stream_recv-P id (Q.stream_recv id n s.state.quiche_conn) s h))

  pub close_stream-P : (id : ℕ) (s : QuicConnState C) → P o a s → P o a (close_stream Q id s).1
  unfolding close_stream closing_state
  close_stream-P id s h =
      and_then-P Q st o a (handle_quic_conn_status Q s)
        (λ u s.
          if contains id s.state.register_outgoing_stream_ids
          then (ok tt, set_outgoing (discard id s.state.register_outgoing_stream_ids) s)
          else notify_readable Q (closing_state id s))
        (status-P Q st o a s h)
        (λ u s h.
          if-P Q st o a (contains id s.state.register_outgoing_stream_ids)
            (ok tt, set_outgoing (discard id s.state.register_outgoing_stream_ids) s)
            (notify_readable Q (closing_state id s)) (st.discard_stable o a id s h)
            (notify_readable-P Q st o a (closing_state id s) (
              st.mediator_stable o a
                (notify_all (stream_readable id ∷ stream_writable id ∷ []) cancel s.mediator)
                (with_queue (s.state.dropping_stream_queue ++ (id ∷ [])) s)
                (st.queue_stable o a (s.state.dropping_stream_queue ++ (id ∷ [])) s h))))
