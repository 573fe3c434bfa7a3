-- ===== src/Quic/Session/Keeps.antt =====
-- A relation that the small updates of crates/net/quic/src/state/conn.rs keep is kept by every call.
pub mod Streams
pub mod Packets
pub mod Wakeups
pub mod Draining
use hala_rs.Base.{
  ℕ, suc, ◌+◌, ◌%◌, ◌≡◌, refl, Bool, true, false, not, ◌&&◌, Option, none, some, List, [], ◌∷◌,
  ◌++◌, Outcome, ok, err, ltb, ◌==◌, Bool-cases, if◌then◌else◌,
}
use hala_rs.Base.Maps.{lookup, Nat-Eq}
use hala_rs.Base.Sets.{contains, add, discard}
use hala_rs.Io.Error.{ErrorKind, broken_pipe}
use hala_rs.Io.ReadBuf.{Bytes}
use hala_rs.Future.EventMap.{EventMap, on, cancel, notify_one, notify_all, notify_any}
use hala_rs.Quic.Event.{Event, readable, stream_readable, stream_writable, accept_event, Event-Eq}
use hala_rs.Quic.Api.{
  QuicheError, done, invalid_stream_state, stream_stopped, stream_limit, other_error, Quiche,
  into_io_error, quiche_error, event_map_error, quiche_kind,
}
use hala_rs.Quic.Conn.{
  RawState, QuicConnState, Handled, with_conn, and_then, notify, is_finished,
  handle_quic_conn_status, notify_readable, handle_stream_status, handle_stream_events,
  handle_quic_incoming_stream, on_readable, on_writable,
}
use hala_rs.Quic.Conn.Dropping.{
  next_timeout, cancel_stream, half_close, after_fin, set_half_closed, set_ping_instant, after_recv,
  after_resp, after_ping, drop_loop, handle_dropping_streams, handle_half_closed_stream_resp,
  handle_half_closed_streams, handle_send_timout,
}
use hala_rs.Quic.Conn.Calls.{
  Round, Wakeup, after_wait, then_round, finish, set_outgoing, closing_state, fail_with,
  events_then_readable, after_stream_send, stream_send, stream_recv_wait, after_stream_recv,
  stream_recv, after_status, accept, accept_after_wait, open_stream, close_stream, finished,
  waiting, again, woken, dropped, timed_out,
}
use hala_rs.Quic.Conn.Packets.{
  io_result, wait_readable, after_send, read, is_due, read_after_wait, drain_half_closed,
  with_result, after_events, after_recv_packet, write_open, write, stream_shutdown, after_close,
  close, is_closed, peer_streams_left_bidi,
}
use hala_rs.Quic.Session.Stable.{Stable, with_incoming, with_queue}
use hala_rs.Quic.Session.{
  Session, Call, opening, closing, sending, receiving, accepting, reading, waking, writing,
  shutting, finishing, perform, run, log_opened, log_accepted, log_written,
}

module _ {C I : Type 0} (Q : Quiche C I) {P : List ℕ → List ℕ → QuicConnState C → Type 0}
    (st : Stable P) (o a : List ℕ) where
  pub if-P :
      {A : Type 0} (b : Bool) (x y : A × QuicConnState C)
      → P o a x.1
      → P o a y.1
      → P o a (if b then x else y).1
  if-P true x y hx hy = hx
  if-P false x y hx hy = hy

  pub and_then-P :
      {A B : Type 0} (h : Handled C A) (f : A → QuicConnState C → Handled C B)
      → P o a h.1
      → ((r : A) (s : QuicConnState C) → P o a s → P o a (f r s).1)
      → P o a (and_then h f).1
  and_then-P (ok r, s) f h g = g r s h
  and_then-P (err e, s) f h g = h

  pub then_round-P :
      {A B : Type 0} (h : Handled C A) (f : A → QuicConnState C → Round B × QuicConnState C)
      → P o a h.1
      → ((r : A) (s : QuicConnState C) → P o a s → P o a (f r s).1)
      → P o a (then_round h f).1
  then_round-P (ok r, s) f h g = g r s h
  then_round-P (err e, s) f h g = h

  pub status-P : (s : QuicConnState C) → P o a s → P o a (handle_quic_conn_status Q s).1
  unfolding handle_quic_conn_status
  status-P s h = if-P (is_finished Q s.state.quiche_conn) _ _ (st.mediator_stable o a _ s h) h

  pub notify_readable-P : (s : QuicConnState C) → P o a s → P o a (notify_readable Q s).1
  unfolding notify_readable
  notify_readable-P s h =
      and_then-P (handle_quic_conn_status Q s) (λ u s. (ok tt, notify readable on s)) (status-P s h)
        (λ u s h. st.mediator_stable o a (notify_one readable on s.mediator).1 s h)

  pub handle_stream_status-P :
      (id : ℕ) (s : QuicConnState C) → P o a s → P o a (handle_stream_status Q id s).1
  unfolding handle_stream_status
  handle_stream_status-P id s h =
      elim (lookup id s.state.half_closed_streams)
        as (λ r.
          P o a
            (elim r as (λ r. Handled C (Unit {0})) [
              | none ↦ (ok tt, s)
              | some t ↦ (err broken_pipe, s)
            ]).1) [ none ↦ h | some t ↦ h ]

  unseen-P :
      {A : Type 0} (p seen : Bool) (x y : A × QuicConnState C)
      → (seen ≡ false → P o a x.1)
      → P o a y.1
      → P o a (if not p && not seen then x else y).1
  unseen-P false false x y hx hy = hx refl
  unseen-P false true x y hx hy = hy
  unseen-P true seen x y hx hy = hy

  incoming-P :
      (id : ℕ) (s : QuicConnState C) → P o a s → P o a (handle_quic_incoming_stream Q id s).1
  unfolding handle_quic_incoming_stream
  incoming-P id s h =
      let r = s.state in
      let s' = with_incoming (add id r.register_incoming_stream_ids) (r.incoming ++ (id ∷ [])) s in
      unseen-P (r.lastest_outgoing_stream_id % 2 == id % 2)
        (contains id r.register_incoming_stream_ids) (ok tt, notify accept_event on s') (ok tt, s)
        (λ u.
          st.mediator_stable o a (notify_one accept_event on s'.mediator).1 s'
            (st.incoming_stable o a id s u h))
        h

  on_writable-P : (r : Option ℕ × C) (s : QuicConnState C) → P o a s → P o a (on_writable Q r s).1
  on_writable-P (none, c) s h = st.conn_stable o a c s h
  on_writable-P (some id, c) s h = st.mediator_stable o a _ _ (st.conn_stable o a c s h)

  on_readable-P : (r : Option ℕ × C) (s : QuicConnState C) → P o a s → P o a (on_readable Q r s).1
  on_readable-P (none, c) s h =
      on_writable-P (Q.stream_writable_next c) (with_conn c s) (st.conn_stable o a c s h)
  on_readable-P (some id, c) s h =
      and_then-P (handle_quic_incoming_stream Q id (with_conn c s))
        (λ u s. (ok tt, notify (stream_readable id) on s))
        (incoming-P id (with_conn c s) (st.conn_stable o a c s h))
        (λ u s h. st.mediator_stable o a (notify_one (stream_readable id) on s.mediator).1 s h)

  pub events-P : (s : QuicConnState C) → P o a s → P o a (handle_stream_events Q s).1
  unfolding handle_stream_events
  events-P s h = on_readable-P _ s h
