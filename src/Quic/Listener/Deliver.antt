-- ===== src/Quic/Listener/Deliver.antt =====
-- Where crates/net/quic/src/state/listener.rs sends the packets that it is given.
use hala_rs.Base.{
  ℕ, ◌+◌, ◌≡◌, ◌⊎◌, Bool, true, false, Option, none, some, Outcome, ok, err, take, ◌==◌,
  if◌then◌else◌,
}
use hala_rs.Base.Maps.{Text-Eq, lookup}
use hala_rs.Io.Error.{ErrorKind}
use hala_rs.Io.ReadBuf.{Bytes}
use hala_rs.Quic.Api.{Quiche}
use hala_rs.Quic.Conn.{QuicConnState}
use hala_rs.Quic.Conn.Packets
use hala_rs.Quic.Conn
use hala_rs.Quic.Acceptor.{Server, RecvInfo, unhandled, incoming, handshake}
use hala_rs.Quic.Listener.{Peer, QuicListenerState, write_size}
use hala_rs.Quic.Listener.Calls.{write, Written}

abbrev succeeds : {A : Type 0} → Outcome ErrorKind A → Bool
succeeds (ok a) = true
succeeds (err e) = false

module _ {C I : Type 0} (Q : Quiche C I) (S : Server C I) (source_id : C → Bytes)
    (now ping_timeout : ℕ) (buf : Bytes) (n : ℕ) (info : RecvInfo) where
  -- The packet has changed the state of its connection and no other, and the connection stays in the
  -- table if the packet was taken.
  abbrev pub Routed :
      Bytes
      → Peer
      → Outcome ErrorKind ℕ
      → QuicConnState C
      → QuicListenerState C
      → QuicListenerState C
      → Type 0
  Routed dcid p r c s u =
      (u.states p.handle ≡ some c)
      × ((h : ℕ) → (p.handle == h) ≡ false → u.states h ≡ s.states h)
      × ((id : Bytes)
          → lookup id u.conns ≡ (
              if succeeds r
              then lookup id s.conns
              else if Text-Eq.beq dcid id
              then none
              else lookup id s.conns))
      × (u.incoming ≡ s.incoming)
      × (u.conns_read ≡ s.conns_read)

  -- The packet is for a connection: the listener is open, the handshake leaves the packet to a
  -- connection id, and the table has it.
  pub record Target (s : QuicListenerState C) : Type 0 where
    pub dcid : Bytes
    pub peer : Peer
    pub state : QuicConnState C
    pub is_open : s.closed ≡ false
    pub answer : (handshake Q S buf n info s.acceptor).0 ≡ ok (unhandled dcid)
    pub known : lookup dcid s.conns ≡ some peer
    pub behind : s.states peer.handle ≡ some state

  -- Its connection has taken the packet or failed on it.
  abbrev pub Delivered : QuicListenerState C → Written Q S source_id → Type 0
  Delivered s (result, u) =
      (t : Target s) × ((r : Outcome ErrorKind ℕ) × (c : QuicConnState C) × (Packets.write Q
            (take n buf) t.state
          ≡ some (r, c))
        × (result ≡ ok (write_size n))
        × Routed t.dcid t.peer r c s u)

  -- The packet has made a connection, with a handle of its own.
  abbrev pub Fresh : QuicListenerState C → QuicListenerState C → Type 0
  Fresh s u =
      (c : C) × (m : ℕ) × (packet : Bytes) × (i : I) × ((handshake Q S buf n info s.acceptor).0
        ≡ ok (incoming c m packet i))
      × (u.states s.made ≡ some (Conn.new Q c ping_timeout 5 now))
      × ((h : ℕ) → (s.made == h) ≡ false → u.states h ≡ s.states h)
      × (u.made ≡ s.made + 1)

  abbrev pub Untouched : QuicListenerState C → QuicListenerState C → Type 0
  Untouched s u = (¬ Target s) × (u.states ≡ s.states) × (u.conns ≡ s.conns) × (u.made ≡ s.made)

  -- What a call of `write` does with its packet.
  abbrev pub Routes : QuicListenerState C → Option (Written Q S source_id) → Type 0
  Routes s none = (t : Target s) × (Packets.write Q (take n buf) t.state ≡ none)
  Routes s (some (result, u)) = Delivered s (result, u) ⊎ (Fresh s u ⊎ Untouched s u)
