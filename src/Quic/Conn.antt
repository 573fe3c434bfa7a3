-- ===== src/Quic/Conn.antt =====
-- crates/net/quic/src/state/conn.rs: the state of a connection and the handlers that run with its
-- lock held. A handler takes the connection and returns its result and the connection after it.
pub mod Dropping
pub mod Calls
pub mod Packets
pub mod Closing
use hala_rs.Base.{
  ℕ, suc, zero, ◌+◌, ◌-◌, ◌%◌, Bool, true, false, ◌&&◌, ◌||◌, not, Option, none, some, List, [],
  ◌∷◌, ◌++◌, Outcome, ok, err, ltb, leb, ◌==◌, ==_iff, ==_self, if◌then◌else◌, ◌≡◌, ◌↔◌, ap, refl,
  sym, ◌∙◌, arith,
}
use hala_rs.Base.Maps.{Nat-Eq, lookup, remove, insert}
use hala_rs.Base.Sets.{contains, add, discard}
use hala_rs.Io.Error.{ErrorKind, broken_pipe}
use hala_rs.Io.ReadBuf.{Bytes}
use hala_rs.Future.EventMap.{
  Reason, on, cancel, EventMap, default, notify_one, notify_all, notify_any,
}
use hala_rs.Quic.Event.{
  Event, readable, writable, stream_readable, stream_writable, accept_event, Event-Eq,
}
use hala_rs.Quic.Api.{QuicheError, done, Quiche, into_io_error, quiche_error}

-- `RawQuicConnState`; a half closed stream is its id with its start instant.
pub record RawState (C : Type 0) : Type 0 where
  pub quiche_conn : C
  pub send_ack_eliciting_instant : ℕ
  pub ping_timeout : ℕ
  pub register_incoming_stream_ids : List ℕ
  pub register_outgoing_stream_ids : List ℕ
  pub lastest_outgoing_stream_id : ℕ
  pub incoming : List ℕ
  pub dropping_stream_queue : List ℕ
  pub half_closed_streams : List (ℕ × ℕ)

-- `QuicConnState`: the locked state, and the events that tasks wait for.
pub record QuicConnState (C : Type 0) : Type 0 where
  pub state : RawState C
  pub mediator : EventMap Event

-- What a handler gives: its result, and the connection also where it fails.
abbrev pub Handled : Type 0 → Type 0 → Type 0
Handled C A = Outcome ErrorKind A × QuicConnState C

module _ {C : Type 0} where
  abbrev pub with_conn : C → QuicConnState C → QuicConnState C
  with_conn c s = record s { state = record s.state { quiche_conn = c } }

  abbrev pub and_then :
      {A B : Type 0} → Handled C A → (A → QuicConnState C → Handled C B) → Handled C B
  and_then (ok a, s) f = f a s
  and_then (err e, s) f = (err e, s)

  abbrev pub notify : Event → Reason → QuicConnState C → QuicConnState C
  notify e r s = record s { mediator = (notify_one e r s.mediator).1 }

-- `RawQuicConnState::new`, the ids that the connection already holds.
abbrev pub initial_incoming : ℕ → List ℕ → List ℕ
initial_incoming first [] = []
initial_incoming first (id ∷ ids) =
    let rest = initial_incoming first ids in if id % 2 == first % 2 then rest else add id rest

module _ {C I : Type 0} (Q : Quiche C I) where
  abbrev pub raw_new : C → ℕ → ℕ → ℕ → RawState C
  raw_new c ping_timeout first now = record {
    quiche_conn = c;
    send_ack_eliciting_instant = now;
    ping_timeout = ping_timeout;
    register_incoming_stream_ids = initial_incoming first (Q.readable c);
    register_outgoing_stream_ids = [];
    lastest_outgoing_stream_id = first;
    incoming = Q.readable c;
    dropping_stream_queue = [];
    half_closed_streams = [];
  }

  unfoldable pub new : C → ℕ → ℕ → ℕ → QuicConnState C
  new c ping_timeout first now = record {
    state = raw_new c ping_timeout first now;
    mediator = default Event;
  }

  abbrev pub is_finished : C → Bool
  is_finished c = Q.is_closed c || Q.is_draining c || Q.is_timed_out c

  unfoldable pub handle_quic_conn_status : QuicConnState C → Handled C (Unit {0})
  unfolding notify_any
  handle_quic_conn_status s =
      if is_finished s.state.quiche_conn
      then (err broken_pipe, record s { mediator = notify_any cancel s.mediator })
      else (ok tt, s)

  unfoldable pub handle_quic_incoming_stream : ℕ → QuicConnState C → Handled C (Unit {0})
  unfolding add
  handle_quic_incoming_stream id s =
      let r = s.state in
      if not (r.lastest_outgoing_stream_id % 2 == id % 2)
        && not (contains id r.register_incoming_stream_ids)
      then (
        ok tt,
        notify accept_event on (record s {
          state = record r {
            register_incoming_stream_ids = add id r.register_incoming_stream_ids;
            incoming = r.incoming ++ (id ∷ []);
          };
        }),
      )
      else (ok tt, s)

  unfoldable pub notify_readable : QuicConnState C → Handled C (Unit {0})
  unfolding handle_quic_conn_status
  notify_readable s = and_then (handle_quic_conn_status s) (λ u s. (ok tt, notify readable on s))

  unfoldable pub handle_stream_status : ℕ → QuicConnState C → Handled C (Unit {0})
  unfolding lookup
  handle_stream_status id s = elim (lookup id s.state.half_closed_streams) [
    | none ↦ (ok tt, s)
    | some t ↦ (err broken_pipe, s)
  ]

  -- Each `while` of the source returns in its first round.
  abbrev pub on_writable : Option ℕ × C → QuicConnState C → Handled C (Unit {0})
  on_writable (none, c) s = (ok tt, with_conn c s)
  on_writable (some id, c) s = (ok tt, notify (stream_writable id) on (with_conn c s))

  abbrev pub on_readable : Option ℕ × C → QuicConnState C → Handled C (Unit {0})
  on_readable (none, c) s = on_writable (Q.stream_writable_next c) (with_conn c s)
  on_readable (some id, c) s =
      and_then (handle_quic_incoming_stream id (with_conn c s))
        (λ u s. (ok tt, notify (stream_readable id) on s))

  unfoldable pub handle_stream_events : QuicConnState C → Handled C (Unit {0})
  unfolding handle_quic_incoming_stream
  handle_stream_events s = on_readable (Q.stream_readable_next s.state.quiche_conn) s
