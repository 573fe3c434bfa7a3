-- ===== src/Quic/Listener/Effect.antt =====
-- What `write` of crates/net/quic/src/state/listener.rs does to the parts of the listener.
use hala_rs.Base.{
  ℕ, ◌+◌, ◌≡◌, inl, inr, refl, Bool, true, false, Option, none, some, List, [], ◌∷◌, ◌++◌, Outcome,
  ok, err, take, Option-cases, update, if◌then◌else◌,
}
use hala_rs.Base.Maps.{Text-Eq, lookup, remove}
use hala_rs.Io.Error.{ErrorKind, broken_pipe}
use hala_rs.Io.ReadBuf.{Bytes}
use hala_rs.Quic.Api.{Quiche}
use hala_rs.Quic.Conn.{QuicConnState, Handled}
use hala_rs.Quic.Conn.Packets
use hala_rs.Quic.Conn
use hala_rs.Quic.Acceptor.{Server, RecvInfo, Handshake, unhandled, incoming, internal, handshake}
use hala_rs.Quic.Listener.{
  Peer, QuicListenerState, WriteResult, write_size, internal_packet, incoming_conn,
  handle_listener_statuts, notify_incoming, batch_read, insert_conn, remove_conn, queue_conn,
}
use hala_rs.Quic.Listener.Calls.{
  write, deliver, after_conn_write, with_size, handled, on_incoming, announce, write_open,
}

module _ {C : Type 0} where
  -- The parts that concern `accept` and `read` stay.
  pub record Same (s u : QuicListenerState C) : Type 0 where
    pub same_closed : u.closed ≡ s.closed
    pub same_incoming : u.incoming ≡ s.incoming
    pub same_mediator : u.mediator ≡ s.mediator
    pub same_read : u.conns_read ≡ s.conns_read
    pub same_read_closed : u.conns_read_closed ≡ s.conns_read_closed
    pub same_made : u.made ≡ s.made

  -- A connection has arrived.
  pub record Arrival (p : Peer) (q : List Peer) (s u : QuicListenerState C) : Type 0 where
    pub was_queue : s.incoming ≡ some q
    pub was_open : s.closed ≡ false
    pub new_handle : p.handle ≡ s.made
    pub new_closed : u.closed ≡ false
    pub new_incoming : u.incoming ≡ some (q ++ (p ∷ []))
    pub new_mediator : u.mediator ≡ (notify_incoming s).mediator
    pub new_read : u.conns_read ≡ s.conns_read ++ (p ∷ [])
    pub new_read_closed : u.conns_read_closed ≡ s.conns_read_closed
    pub new_made : u.made ≡ s.made + 1

module _ {C I : Type 0} where
  pub data Effect (s : QuicListenerState C)
      : Option (Outcome ErrorKind (WriteResult I) × QuicListenerState C) → Type 0 where
    hangs : Effect s none
    fails : (e : ErrorKind) {u : QuicListenerState C} → Same s u → Effect s (some (err e, u))
    delivers : (n : ℕ) {u : QuicListenerState C} → Same s u → Effect s (some (ok (write_size n), u))
    answers :
        (n : ℕ) (packet : Bytes) (info : I) {u : QuicListenerState C}
        → Same s u
        → Effect s (some (ok (internal_packet n packet info), u))
    arrives :
        (p : Peer) (n : ℕ) (packet : Bytes) (info : I) {u : QuicListenerState C} (q : List Peer)
        → Arrival p q s u
        → Effect s (some (ok (incoming_conn p n packet info), u))
    -- Of an open listener without a queue, which is none that its calls leave.
    turns_away :
        {u : QuicListenerState C}
        → s.closed ≡ false
        → s.incoming ≡ none
        → Effect s (some (err broken_pipe, u))

module _ {C : Type 0} where
  -- A new table of connections, new states and a new table of the acceptor.
  Same-tables :
      (s : QuicListenerState C) (table : List (Bytes × C)) (conns : List (Bytes × Peer))
      (states : ℕ → Option (QuicConnState C))
      → Same s (record s { acceptor = table; conns = conns; states = states })
  Same-tables s table conns states = record {
    same_closed = refl;
    same_incoming = refl;
    same_mediator = refl;
    same_read = refl;
    same_read_closed = refl;
    same_made = refl;
  }

module _ {C I : Type 0} (Q : Quiche C I) (S : Server C I) (source_id : C → Bytes) where
  after_conn_write-Effect :
      (dcid : Bytes) (h n : ℕ) (o : Option (Handled C ℕ)) (s : QuicListenerState C)
      (table : List (Bytes × C))
      → Effect s (
          with_size Q S source_id n
            (after_conn_write Q S source_id dcid h o (record s { acceptor = table })))
  unfolding remove_conn
  after_conn_write-Effect dcid h n none s table = hangs
  after_conn_write-Effect dcid h n (some (ok m, c)) s table =
      delivers n (Same-tables s table s.conns (update s.states h (some c)))
  after_conn_write-Effect dcid h n (some (err e, c)) s table =
      delivers n (Same-tables s table (remove dcid s.conns) (update s.states h (some c)))

  deliver-Effect :
      (dcid buf : Bytes) (n : ℕ) (o : Option Peer) (s : QuicListenerState C)
      (table : List (Bytes × C))
      → Effect s (
          with_size Q S source_id n
            (deliver Q S source_id dcid buf o (record s { acceptor = table })))
  deliver-Effect dcid buf n none s table = delivers n (Same-tables s table s.conns s.states)
  deliver-Effect dcid buf n (some p) s table = elim (Option-cases (s.states p.handle)) [
    | inl e ↦ rw e (delivers n (Same-tables s table s.conns s.states))
    | inr (c, e) ↦ rw e (after_conn_write-Effect dcid p.handle n (Packets.write Q buf c) s table)
  ]

  announce-Effect :
      (scid : Bytes) (n : ℕ) (packet : Bytes) (info : I) (c : QuicConnState C)
      (s : QuicListenerState C) (table : List (Bytes × C)) (o : Option (List Peer))
      → s.closed ≡ false
      → s.incoming ≡ o
      → let p : Peer = record { scid = scid; handle = s.made } in
        let s' = insert_conn scid c (record s { acceptor = table }) in
        Effect s (some (announce Q S source_id p n packet info (queue_conn o p s') s'))
  unfolding insert_conn batch_read
  announce-Effect scid n packet info c s table none k e = turns_away k e
  announce-Effect scid n packet info c s table (some q) k e =
      arrives (record { scid = scid; handle = s.made }) n packet info q
        (record {
          was_queue = e;
          was_open = k;
          new_handle = refl;
          new_closed = k;
          new_incoming = refl;
          new_mediator = refl;
          new_read = refl;
          new_read_closed = refl;
          new_made = refl;
        })

  handled-Effect :
      (now ping_timeout : ℕ) (buf : Bytes) (n : ℕ) (r : Outcome ErrorKind (Handshake C I))
      (s : QuicListenerState C) (table : List (Bytes × C))
      → s.closed ≡ false
      → Effect s (handled Q S source_id now ping_timeout buf n r (record s { acceptor = table }))
  unfolding on_incoming
  handled-Effect now ping_timeout buf n (err e) s table k =
      fails e (Same-tables s table s.conns s.states)
  handled-Effect now ping_timeout buf n (ok (unhandled dcid)) s table k =
      deliver-Effect dcid (take n buf) n (lookup dcid s.conns) s table
  handled-Effect now ping_timeout buf n (ok (incoming c m packet info)) s table k =
      announce-Effect (source_id c) m packet info (Conn.new Q c ping_timeout 5 now) s table
        s.incoming k refl
  handled-Effect now ping_timeout buf n (ok (internal m packet info)) s table k =
      answers m packet info (Same-tables s table s.conns s.states)

  write_open-Effect :
      (now ping_timeout : ℕ) (buf : Bytes) (n : ℕ) (info : RecvInfo) (s : QuicListenerState C)
      (b : Bool)
      → s.closed ≡ b
      → Effect s (
          write_open Q S source_id now ping_timeout buf n info
            (if b then err broken_pipe else ok tt)
            s)
  write_open-Effect now ping_timeout buf n info s true k =
      fails broken_pipe (Same-tables s s.acceptor s.conns s.states)
  write_open-Effect now ping_timeout buf n info s false k =
      let answer = handshake Q S buf n info s.acceptor in
      handled-Effect now ping_timeout buf n answer.0 s answer.1 k

  pub write-Effect :
      (now ping_timeout : ℕ) (buf : Bytes) (n : ℕ) (info : RecvInfo) (s : QuicListenerState C)
      → Effect s (write Q S source_id now ping_timeout buf n info s)
  unfolding write handle_listener_statuts
  write-Effect now ping_timeout buf n info s =
      write_open-Effect now ping_timeout buf n info s s.closed refl
