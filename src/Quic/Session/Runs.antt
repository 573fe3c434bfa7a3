-- ===== src/Quic/Session/Runs.antt =====
-- A relation that the small updates of crates/net/quic/src/state/conn.rs keep holds after any session.
use hala_rs.Base.{ℕ, ◌≡◌, refl, Option, none, some, List, [], ◌∷◌, ok, err}
use hala_rs.Base.Maps.{Nat-Eq}
use hala_rs.Quic.Event.{Event-Eq}
use hala_rs.Quic.Api.{Quiche}
use hala_rs.Quic.Conn.{QuicConnState, Handled, and_then, handle_quic_conn_status}
use hala_rs.Quic.Conn.Calls.{opened_state, pop_incoming, after_status, accept, open_stream}
use hala_rs.Quic.Conn.Packets.{write}
use hala_rs.Quic.Session.Keeps.{status-P}
use hala_rs.Quic.Session.Keeps.Streams.{stream_send-P, stream_recv-P, close_stream-P}
use hala_rs.Quic.Session.Keeps.Packets.{read-P}
use hala_rs.Quic.Session.Keeps.Wakeups.{read_after_wait-P, stream_shutdown-P, close-P}
use hala_rs.Quic.Session.Keeps.Draining.{EndsKept, write-P}
use hala_rs.Quic.Session.Stable.{Stable}
use hala_rs.Quic.Session.{
  Session, Call, opening, closing, sending, receiving, accepting, reading, waking, writing,
  shutting, finishing, perform, run, log_opened, log_accepted, log_written,
}

module _ {C I : Type 0} (Q : Quiche C I) {P : List ℕ → List ℕ → QuicConnState C → Type 0}
    (st : Stable P) where
  abbrev Holds : Session C → Type 0
  Holds s = P s.opened s.accepted s.conn

  opened-P :
      (r : Handled C (Unit {0})) (s : Session C)
      → P s.opened s.accepted r.1
      → Holds (
          log_opened
            (and_then r (λ u c. (ok c.state.lastest_outgoing_stream_id, opened_state c)))
            s)
  unfolding opened_state
  opened-P (ok u, c) s h = st.open_stable s.opened s.accepted c h
  opened-P (err e, c) s h = h

  popped-P :
      (ids : List ℕ) (c : QuicConnState C) (s : Session C)
      → c.state.incoming ≡ ids
      → P s.opened s.accepted c
      → Holds (log_accepted (pop_incoming Q ids c) s)
  popped-P [] c s u h = h
  popped-P (id ∷ ids) c s u h = st.accept_stable s.opened s.accepted id ids c u h

  accepted-P :
      (r : Handled C (Unit {0})) (s : Session C)
      → P s.opened s.accepted r.1
      → Holds (log_accepted (after_status Q r) s)
  accepted-P (err e, c) s h = h
  accepted-P (ok u, c) s h = popped-P c.state.incoming c s refl h

  written-P :
      (r : Option (Handled C ℕ)) (s : Session C)
      → EndsKept Q st s.opened s.accepted r
      → Holds s
      → Holds (log_written r s)
  written-P none s h g = g
  written-P (some r) s h g = h

  perform-P : (call : Call) (s : Session C) → Holds s → Holds (perform Q call s)
  unfolding perform open_stream accept
  perform-P opening s h =
      opened-P (handle_quic_conn_status Q s.conn) s (status-P Q st s.opened s.accepted s.conn h)
  perform-P (closing id) s h = close_stream-P Q st s.opened s.accepted id s.conn h
  perform-P (sending id buf fin) s h = stream_send-P Q st s.opened s.accepted id buf fin s.conn h
  perform-P (receiving id n) s h = stream_recv-P Q st s.opened s.accepted id n s.conn h
  perform-P accepting s h =
      accepted-P (handle_quic_conn_status Q s.conn) s (status-P Q st s.opened s.accepted s.conn h)
  perform-P (reading now n) s h = read-P Q st s.opened s.accepted now n s.conn h
  perform-P (waking now w) s h = read_after_wait-P Q st s.opened s.accepted now w s.conn h
  perform-P (writing buf) s h =
      written-P (write Q buf s.conn) s (write-P Q st s.opened s.accepted buf s.conn h) h
  perform-P (shutting id e) s h = stream_shutdown-P Q st s.opened s.accepted id e s.conn h
  perform-P (finishing app e reason) s h = close-P Q st s.opened s.accepted app e reason s.conn h

  pub run-P : (calls : List Call) (s : Session C) → Holds s → Holds (run Q calls s)
  unfolding run
  run-P [] s h = h
  run-P (call ∷ calls) s h = run-P calls (perform Q call s) (perform-P call s h)
