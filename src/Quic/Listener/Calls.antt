-- ===== src/Quic/Listener/Calls.antt =====
-- crates/net/quic/src/state/listener.rs: the calls `write`, `accept` and `read` of the listener.
use hala_rs.Base.{
  ℕ, true, Option, none, some, List, [], ◌∷◌, Outcome, ok, err, update, if◌then◌else◌, take, ◌==◌,
}
use hala_rs.Base.Maps.{Text-Eq, lookup}
use hala_rs.Io.Error.{ErrorKind}
use hala_rs.Io.ReadBuf.{Bytes}
use hala_rs.Future.EventMap.{register}
use hala_rs.Quic.Api.{Quiche}
use hala_rs.Quic.Conn.{QuicConnState, Handled}
use hala_rs.Quic.Conn.Packets
use hala_rs.Quic.Conn
use hala_rs.Quic.Acceptor.{Server, RecvInfo, Handshake, unhandled, incoming, internal, handshake}
use hala_rs.Quic.Listener.{
  incoming_event, ListenerEvent-Eq, Peer, QuicListenerState, WriteResult, write_size,
  internal_packet, incoming_conn, handle_listener_statuts, notify_incoming, batch_read, insert_conn,
  remove_conn, queue_conn,
}

-- How a round of `accept` or `read` ends.
pub data Round (A : Type 0) : Type 0 where
  finished : A → Round A
  waiting : Round A
  again : Round A

module _ {C I : Type 0} (Q : Quiche C I) (S : Server C I) (source_id : C → Bytes) where
  abbrev pub Written : Type 0
  Written = Outcome ErrorKind (WriteResult I) × QuicListenerState C

  -- `Incoming`: the connection is known, queued, announced and read from.
  abbrev pub announce :
      Peer → ℕ → Bytes → I → Outcome ErrorKind (QuicListenerState C) → QuicListenerState C → Written
  announce p n packet info (err e) s = (err e, s)
  announce p n packet info (ok s') s =
      (ok (incoming_conn p n packet info), batch_read p (notify_incoming s'))

  unfoldable pub on_incoming : C → ℕ → ℕ → ℕ → Bytes → I → QuicListenerState C → Written
  unfolding batch_read insert_conn
  on_incoming c now ping_timeout n packet info s =
      let scid = source_id c in
      let p : Peer = record { scid = scid; handle = s.made } in
      let s' = insert_conn scid (Conn.new Q c ping_timeout 5 now) s in
      announce p n packet info (queue_conn s'.incoming p s') s'

  -- `Unhandled`: the packet goes to its connection, which leaves the table if it fails.
  abbrev pub after_conn_write :
      Bytes → ℕ → Option (Handled C ℕ) → QuicListenerState C → Option (QuicListenerState C)
  after_conn_write dcid h none s = none
  after_conn_write dcid h (some (ok n, c)) s =
      some (record s { states = update s.states h (some c) })
  after_conn_write dcid h (some (err e, c)) s =
      some (remove_conn dcid (record s { states = update s.states h (some c) }))

  abbrev pub write_conn :
      Bytes
      → Bytes
      → ℕ
      → Option (QuicConnState C)
      → QuicListenerState C
      → Option (QuicListenerState C)
  write_conn dcid buf h none s = some s
  write_conn dcid buf h (some c) s = after_conn_write dcid h (Packets.write Q buf c) s

  abbrev pub deliver :
      Bytes → Bytes → Option Peer → QuicListenerState C → Option (QuicListenerState C)
  deliver dcid buf none s = some s
  deliver dcid buf (some p) s = write_conn dcid buf p.handle (s.states p.handle) s

  abbrev pub with_size : ℕ → Option (QuicListenerState C) → Option Written
  with_size n none = none
  with_size n (some s) = some (ok (write_size n), s)

  abbrev pub handled :
      ℕ → ℕ → Bytes → ℕ → Outcome ErrorKind (Handshake C I) → QuicListenerState C → Option Written
  handled now ping_timeout buf n (err e) s = some (err e, s)
  handled now ping_timeout buf n (ok (unhandled dcid)) s =
      with_size n (deliver dcid (take n buf) (lookup dcid s.conns) s)
  handled now ping_timeout buf n (ok (incoming c m packet info)) s =
      some (on_incoming c now ping_timeout m packet info s)
  handled now ping_timeout buf n (ok (internal m packet info)) s =
      some (ok (internal_packet m packet info), s)

  abbrev pub write_open :
      ℕ
      → ℕ
      → Bytes
      → ℕ
      → RecvInfo
      → Outcome ErrorKind (Unit {0})
      → QuicListenerState C
      → Option Written
  write_open now ping_timeout buf n info (err e) s = some (err e, s)
  write_open now ping_timeout buf n info (ok u) s =
      let (r, table) = handshake Q S buf n info s.acceptor in
      handled now ping_timeout buf n r (record s { acceptor = table })

  -- `none` is that of the connection's `write`.
  unfoldable pub write : ℕ → ℕ → Bytes → ℕ → RecvInfo → QuicListenerState C → Option Written
  unfolding handle_listener_statuts on_incoming remove_conn
  write now ping_timeout buf n info s =
      write_open now ping_timeout buf n info (handle_listener_statuts s) s

module _ {C : Type 0} where
  abbrev pub pop_incoming :
      ℕ → Option (List Peer) → QuicListenerState C → Round (Option Peer) × QuicListenerState C
  pop_incoming waiter none s = (finished none, s)
  pop_incoming waiter (some []) s = (
    waiting,
    record s {
      mediator =
          register (record { event = incoming_event; waiter = waiter; guard = true }) s.mediator;
    },
  )
  pop_incoming waiter (some (p ∷ q)) s = (finished (some p), record s { incoming = some q })

  -- The lock that is held goes to the wait.
  unfoldable pub accept : ℕ → QuicListenerState C → Round (Option Peer) × QuicListenerState C
  accept waiter s = pop_incoming waiter s.incoming s

  abbrev pub then_status :
      {A : Type 0}
      → Outcome ErrorKind (Unit {0})
      → Round (Outcome ErrorKind A) × QuicListenerState C
      → QuicListenerState C
      → Round (Outcome ErrorKind A) × QuicListenerState C
  then_status (err e) r s = (finished (err e), s)
  then_status (ok u) r s = r

-- The batcher gives the result of a task, which leaves it.
abbrev pub take_task : List Peer → ℕ → List Peer
take_task [] h = []
take_task (p ∷ ps) h = let rest = take_task ps h in if p.handle == h then ps else p ∷ rest

module _ {C I : Type 0} where
  -- A read of a connection has ended, with the status of the listener.
  abbrev pub on_ended :
      Peer
      → Outcome ErrorKind (Bytes × I)
      → Outcome ErrorKind (Unit {0})
      → QuicListenerState C
      → Round (Outcome ErrorKind (Bytes × I)) × QuicListenerState C
  on_ended p (err e) status s =
      let s' = record s { conns_read = take_task s.conns_read p.handle } in
      then_status status (again, remove_conn p.scid s') s'
  on_ended p (ok r) status s =
      let s' = record s { conns_read = take_task s.conns_read p.handle } in
      then_status status (finished (ok r), batch_read p s') s'

  -- A round of the loop of `read` on what the batcher gives: `none` if the batcher is closed.
  unfoldable pub on_read :
      Option (Peer × Outcome ErrorKind (Bytes × I))
      → QuicListenerState C
      → Round (Outcome ErrorKind (Bytes × I)) × QuicListenerState C
  unfolding handle_listener_statuts remove_conn batch_read
  on_read none s = then_status (handle_listener_statuts s) (again, s) s
  on_read (some (p, result)) s = on_ended p result (handle_listener_statuts s) s

  -- The first round of `read`.
  unfoldable pub read :
      Option (Peer × Outcome ErrorKind (Bytes × I))
      → QuicListenerState C
      → Round (Outcome ErrorKind (Bytes × I)) × QuicListenerState C
  unfolding handle_listener_statuts on_read
  read answer s = then_status (handle_listener_statuts s) (on_read answer s) s
