-- ===== src/Quic/Listener.antt =====
-- crates/net/quic/src/state/listener.rs: `QuicListenerState`, one call at a time. A `QuicConnState`
-- that the listener shares with its callers stands for a handle, with the state behind it in the
-- listener. A call that waits is one round of its loop, up to the result or the wait.
pub mod Calls
pub mod Effect
pub mod Runs
pub mod Accept
pub mod Waits
pub mod Closings
pub mod Tasks
pub mod Reads
pub mod Deliver
pub mod Loop
use hala_rs.Base.{
  ℕ, ◌+◌, ◌≡◌, Bool, true, false, Option, none, some, List, [], ◌∷◌, ◌++◌, Outcome, ok, err, refl,
  update, if◌then◌else◌, take, ◌==◌,
}
use hala_rs.Base.Maps.{Eq, Text-Eq, lookup, remove, insert}
use hala_rs.Io.Error.{ErrorKind, broken_pipe}
use hala_rs.Io.ReadBuf.{Bytes}
use hala_rs.Future.EventMap.{EventMap, default, notify_one, register, on, Wait}
use hala_rs.Quic.Api.{Quiche}
use hala_rs.Quic.Conn.{QuicConnState, Handled}
use hala_rs.Quic.Acceptor.{
  Server, RecvInfo, Conns, Handshake, unhandled, incoming, internal, handshake,
}

-- `QuicListenerStateEvent`
pub data ListenerEvent : Type 0 where
  incoming_event : ListenerEvent

abbrev pub same_event : ListenerEvent → ListenerEvent → Bool
same_event incoming_event incoming_event = true

pub same_event-eq : (a b : ListenerEvent) → same_event a b ≡ true → a ≡ b
same_event-eq incoming_event incoming_event e = refl

pub eq-same_event : (a b : ListenerEvent) → a ≡ b → same_event a b ≡ true
eq-same_event incoming_event incoming_event e = refl

instance unfoldable pub ListenerEvent-Eq : Eq ListenerEvent
ListenerEvent-Eq = record {
  beq = same_event;
  beq_iff = λ a b. (same_event-eq a b, eq-same_event a b);
}

-- A clone of a `QuicConnState`.
pub record Peer : Type 0 where
  pub scid : Bytes
  pub handle : ℕ

-- The fields of `QuicListenerState`, `acceptor` for the table of its handshakes and `conns_read` for
-- the connections whose read is in the batcher. The last two are no fields of the code: the states
-- behind the handles, and the number of handles made.
pub record QuicListenerState (C : Type 0) : Type 0 where
  pub closed : Bool
  pub acceptor : Conns C
  pub conns : List (Bytes × Peer)
  pub incoming : Option (List Peer)
  pub mediator : EventMap ListenerEvent
  pub conns_read : List Peer
  pub conns_read_closed : Bool
  pub states : ℕ → Option (QuicConnState C)
  pub made : ℕ

abbrev pub new : (C : Type 0) → QuicListenerState C
new C = record {
  closed = false;
  acceptor = [];
  conns = [];
  incoming = some [];
  mediator = default ListenerEvent;
  conns_read = [];
  conns_read_closed = false;
  states = λ h. none;
  made = 0;
}

-- `QuicListenerWriteResult`
pub data WriteResult (I : Type 0) : Type 0 where
  write_size : ℕ → WriteResult I
  internal_packet : (write_size : ℕ) (packet : Bytes) (info : I) → WriteResult I
  incoming_conn : (conn : Peer) (write_size : ℕ) (packet : Bytes) (info : I) → WriteResult I

module _ {C : Type 0} where
  unfoldable pub handle_listener_statuts : QuicListenerState C → Outcome ErrorKind (Unit {0})
  handle_listener_statuts s = if s.closed then err broken_pipe else ok tt

  abbrev pub notify_incoming : QuicListenerState C → QuicListenerState C
  notify_incoming s = record s { mediator = (notify_one incoming_event on s.mediator).1 }

  unfoldable pub batch_read : Peer → QuicListenerState C → QuicListenerState C
  batch_read p s = record s { conns_read = s.conns_read ++ (p ∷ []) }

  -- A handle for a new connection state, in the table under its id.
  unfoldable pub insert_conn : Bytes → QuicConnState C → QuicListenerState C → QuicListenerState C
  insert_conn scid c s = record s {
    conns = insert scid (record { scid = scid; handle = s.made }) s.conns;
    states = update s.states s.made (some c);
    made = s.made + 1;
  }

  unfoldable pub remove_conn : Bytes → QuicListenerState C → QuicListenerState C
  remove_conn id s = record s { conns = remove id s.conns }

  -- `ok_or` on the queue, and its `push_back`.
  abbrev pub queue_conn :
      Option (List Peer) → Peer → QuicListenerState C → Outcome ErrorKind (QuicListenerState C)
  queue_conn none p s = err broken_pipe
  queue_conn (some q) p s = ok (record s { incoming = some (q ++ (p ∷ [])) })

  unfoldable pub close : QuicListenerState C → QuicListenerState C
  close s =
      if s.closed
      then record s { conns_read_closed = true }
      else notify_incoming (record s { closed = true; incoming = none })
