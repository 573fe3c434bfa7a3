-- ===== src/Quic/Conn/Calls.antt =====
-- crates/net/quic/src/state/conn.rs: the calls of `QuicConnState`. A call that waits is given as
-- one round of its loop, from taking the lock to the result or the wait, and what a wake-up does.
use hala_rs.Base.{
  ℕ, ◌+◌, ◌%◌, Bool, Option, none, some, List, [], ◌∷◌, ◌++◌, Outcome, ok, err, ◌==◌, if◌then◌else◌,
}
use hala_rs.Base.Sets.{contains, add, discard}
use hala_rs.Io.Error.{ErrorKind}
use hala_rs.Io.ReadBuf.{Bytes}
use hala_rs.Future.EventMap.{EventMapError, cancel, notify_all}
use hala_rs.Quic.Event.{Event, stream_readable, stream_writable, accept_event, Event-Eq}
use hala_rs.Quic.Api.{
  QuicheError, done, invalid_stream_state, Quiche, into_io_error, quiche_error, event_map_error,
}
use hala_rs.Quic.Conn.{
  QuicConnState, Handled, with_conn, and_then, handle_quic_conn_status, notify_readable,
  handle_stream_status, handle_stream_events,
}

-- How a round of a waiting call ends: with a result, in a wait for an event for at most some time,
-- or at the head of the loop.
pub data Round (A : Type 0) : Type 0 where
  finished : Outcome ErrorKind A → Round A
  waiting : Event → Option ℕ → Round A
  again : Round A

-- How a wait ends.
pub data Wakeup : Type 0 where
  woken : Wakeup
  dropped : EventMapError → Wakeup
  timed_out : Wakeup

abbrev pub after_wait : {A : Type 0} → Wakeup → Round A
after_wait woken = again
after_wait timed_out = again
after_wait (dropped e) = finished (err (into_io_error (event_map_error e)))

module _ {C : Type 0} where
  abbrev pub then_round :
      {A B : Type 0}
      → Handled C A
      → (A → QuicConnState C → Round B × QuicConnState C)
      → Round B × QuicConnState C
  then_round (ok a, s) f = f a s
  then_round (err e, s) f = (finished (err e), s)

  abbrev pub finish : {A : Type 0} → Handled C A → Round A × QuicConnState C
  finish (r, s) = (finished r, s)

  abbrev pub set_outgoing : List ℕ → QuicConnState C → QuicConnState C
  set_outgoing ids s = record s { state = record s.state { register_outgoing_stream_ids = ids } }

  -- The next stream id taken.
  unfoldable pub opened_state : QuicConnState C → QuicConnState C
  unfolding add
  opened_state s =
      let id = s.state.lastest_outgoing_stream_id in
      record s {
        state = record s.state {
          lastest_outgoing_stream_id = id + 4;
          register_outgoing_stream_ids = add id s.state.register_outgoing_stream_ids;
        };
      }

  -- The stream queued to be dropped, and those who wait for it cancelled.
  unfoldable pub closing_state : ℕ → QuicConnState C → QuicConnState C
  unfolding notify_all
  closing_state id s = record s {
    state = record s.state { dropping_stream_queue = s.state.dropping_stream_queue ++ (id ∷ []) };
    mediator = notify_all (stream_readable id ∷ stream_writable id ∷ []) cancel s.mediator;
  }

module _ {C I : Type 0} (Q : Quiche C I) where
  -- A call of quiche that failed: the status of the connection goes first.
  abbrev pub fail_with : {A : Type 0} → QuicheError → QuicConnState C → Handled C A
  fail_with e s =
      and_then (handle_quic_conn_status Q s) (λ u s. (err (into_io_error (quiche_error e)), s))

  abbrev pub events_then_readable : {A : Type 0} → A → QuicConnState C → Handled C A
  events_then_readable a s =
      and_then (handle_stream_events Q s) (λ u s. and_then (notify_readable Q s) (λ v s. (ok a, s)))

  abbrev pub after_stream_send :
      ℕ → Outcome QuicheError ℕ × C → QuicConnState C → Round ℕ × QuicConnState C
  after_stream_send id (ok n, c) s =
      let s' = with_conn c s in
      let ids = s'.state.register_outgoing_stream_ids in
      finish (
        events_then_readable n (
          if s'.state.lastest_outgoing_stream_id % 2 == id % 2
          then set_outgoing (discard id ids) s'
          else s'))
  after_stream_send id (err done, c) s =
      then_round (events_then_readable tt (with_conn c s))
        (λ u s. (waiting (stream_writable id) none, s))
  after_stream_send id (err e, c) s = finish (fail_with e (with_conn c s))

  unfoldable pub stream_send : ℕ → Bytes → Bool → QuicConnState C → Round ℕ × QuicConnState C
  unfolding handle_quic_conn_status handle_stream_status handle_stream_events notify_readable
      discard
  stream_send id buf fin s = then_round (handle_quic_conn_status Q s) (λ u s.
      then_round (handle_stream_status Q id s)
        (λ v s. after_stream_send id (Q.stream_send id buf fin s.state.quiche_conn) s))

  abbrev pub stream_recv_wait : {A : Type 0} → ℕ → QuicConnState C → Round A × QuicConnState C
  stream_recv_wait id s =
      then_round (notify_readable Q s) (λ u s. (waiting (stream_readable id) none, s))

  abbrev pub after_stream_recv :
      ℕ
      → Outcome QuicheError (Bytes × Bool) × C
      → QuicConnState C
      → Round (Bytes × Bool) × QuicConnState C
  after_stream_recv id (ok r, c) s = finish (events_then_readable r (with_conn c s))
  after_stream_recv id (err done, c) s =
      then_round (handle_stream_events Q (with_conn c s)) (λ u s. stream_recv_wait id s)
  after_stream_recv id (err (invalid_stream_state i), c) s =
      if contains id s.state.register_outgoing_stream_ids
      then stream_recv_wait id (with_conn c s)
      else (finished (err (into_io_error (quiche_error (invalid_stream_state id)))), with_conn c s)
  after_stream_recv id (err e, c) s =
      then_round (handle_stream_events Q (with_conn c s))
        (λ u s. (finished (err (into_io_error (quiche_error e))), s))

  unfoldable pub stream_recv : ℕ → ℕ → QuicConnState C → Round (Bytes × Bool) × QuicConnState C
  unfolding handle_quic_conn_status handle_stream_status handle_stream_events notify_readable
  stream_recv id n s = then_round (handle_quic_conn_status Q s) (λ u s.
      then_round (handle_stream_status Q id s)
        (λ v s. after_stream_recv id (Q.stream_recv id n s.state.quiche_conn) s))

  abbrev pub pop_incoming : List ℕ → QuicConnState C → Round (Option ℕ) × QuicConnState C
  pop_incoming [] s = (waiting accept_event none, s)
  pop_incoming (id ∷ ids) s =
      (finished (ok (some id)), record s { state = record s.state { incoming = ids } })

  -- `accept` answers `None` where the connection is closed, and never an error.
  abbrev pub after_status : Handled C (Unit {0}) → Round (Option ℕ) × QuicConnState C
  after_status (err e, s) = (finished (ok none), s)
  after_status (ok u, s) = pop_incoming s.state.incoming s

  unfoldable pub accept : QuicConnState C → Round (Option ℕ) × QuicConnState C
  unfolding handle_quic_conn_status
  accept s = after_status (handle_quic_conn_status Q s)

  abbrev pub accept_after_wait : Wakeup → Round (Option ℕ)
  accept_after_wait woken = again
  accept_after_wait timed_out = again
  accept_after_wait (dropped e) = finished (ok none)

  unfoldable pub open_stream : QuicConnState C → Handled C ℕ
  unfolding handle_quic_conn_status opened_state
  open_stream s =
      and_then (handle_quic_conn_status Q s)
        (λ u s. (ok s.state.lastest_outgoing_stream_id, opened_state s))

  unfoldable pub close_stream : ℕ → QuicConnState C → Handled C (Unit {0})
  unfolding handle_quic_conn_status notify_readable discard closing_state
  close_stream id s = and_then (handle_quic_conn_status Q s) (λ u s.
      if contains id s.state.register_outgoing_stream_ids
      then (ok tt, set_outgoing (discard id s.state.register_outgoing_stream_ids) s)
      else notify_readable Q (closing_state id s))
