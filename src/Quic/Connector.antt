-- ===== src/Quic/Connector.antt =====
-- crates/net/quic/src/state/connector.rs, and `connect_with` and `connect` of
-- crates/net/quic/src/conn.rs: the client's handshake.
pub mod Connect
use hala_rs.Base.{
  ℕ, Bool, Option, none, some, List, [], ◌∷◌, Outcome, ok, err, if◌then◌else◌, length,
}
use hala_rs.Io.Error.{ErrorKind, connection_refused, timed_out}
use hala_rs.Io.ReadBuf.{Bytes}
use hala_rs.Quic.Api.{QuicheError, done, Quiche, HalaIoError, into_io_error}
use hala_rs.Quic.Conn
use hala_rs.Quic.Conn.{QuicConnState}
use hala_rs.Quic.Acceptor.{SocketAddr, RecvInfo}

-- `fill` of ring and `connect` of quiche with its configuration in it.
pub record Client (C : Type 0) : Type 0 where
  pub max_conn_id_len : ℕ
  pub fill : ℕ → Outcome HalaIoError Bytes
  pub connect : Bytes → SocketAddr → SocketAddr → Outcome QuicheError C
  pub send_ping_interval : ℕ
  pub max_datagram_size : ℕ

pub record QuicConnectorState (C : Type 0) : Type 0 where
  pub quiche_conn : C
  pub ping_timeout : ℕ

-- What the socket does in one round of the loop: the result of its send, and of its receive up to the
-- time limit.
pub record Exchange : Type 0 where
  pub sent : Outcome ErrorKind (Unit {0})
  pub received : Outcome ErrorKind (Bytes × RecvInfo)

module _ {C : Type 0} where
  abbrev pub connected : Client C → Outcome QuicheError C → Outcome ErrorKind (QuicConnectorState C)
  connected K (err e) = err connection_refused
  connected K (ok c) = ok (record { quiche_conn = c; ping_timeout = K.send_ping_interval })

  abbrev pub with_scid :
      Client C
      → SocketAddr
      → SocketAddr
      → Outcome HalaIoError Bytes
      → Outcome ErrorKind (QuicConnectorState C)
  with_scid K laddr raddr (err e) = err (into_io_error e)
  with_scid K laddr raddr (ok scid) = connected K (K.connect scid laddr raddr)

  unfoldable pub new : Client C → SocketAddr → SocketAddr → Outcome ErrorKind (QuicConnectorState C)
  new K laddr raddr = with_scid K laddr raddr (K.fill K.max_conn_id_len)

module _ {C I : Type 0} (Q : Quiche C I) where
  abbrev pub sends :
      Outcome QuicheError (Bytes × I) × C
      → QuicConnectorState C
      → Outcome ErrorKind (Option (Bytes × I)) × QuicConnectorState C
  sends (ok r, c) s = (ok (some r), record s { quiche_conn = c })
  sends (err done, c) s = (ok none, record s { quiche_conn = c })
  sends (err e, c) s = (err connection_refused, record s { quiche_conn = c })

  unfoldable pub send :
      ℕ → QuicConnectorState C → Outcome ErrorKind (Option (Bytes × I)) × QuicConnectorState C
  send n s = sends (Q.send n s.quiche_conn) s

  abbrev pub receives :
      Outcome QuicheError ℕ × C → QuicConnectorState C → Outcome ErrorKind ℕ × QuicConnectorState C
  receives (err e, c) s = (err connection_refused, record s { quiche_conn = c })
  receives (ok n, c) s =
      (if Q.is_closed c then err connection_refused else ok n, record s { quiche_conn = c })

  unfoldable pub recv : Bytes → QuicConnectorState C → Outcome ErrorKind ℕ × QuicConnectorState C
  recv buf s = receives (Q.recv buf s.quiche_conn) s

  unfoldable pub on_timeout : QuicConnectorState C → QuicConnectorState C
  on_timeout s = record s { quiche_conn = Q.on_timeout s.quiche_conn }

  -- `From<QuicConnectorState>` at the time `now`.
  unfoldable pub into_conn : ℕ → QuicConnectorState C → QuicConnState C
  into_conn now s = Conn.new Q s.quiche_conn s.ping_timeout 4 now

  -- How a round of the loop of `connect_with` ends; `none` goes on with the loop.
  abbrev pub Turn : Type 0
  Turn = Option (Outcome ErrorKind (QuicConnectorState C)) × QuicConnectorState C

  abbrev pub after_recv : Outcome ErrorKind ℕ × QuicConnectorState C → Turn
  after_recv (err e, s) = (some (err e), s)
  after_recv (ok n, s) = if Q.is_established s.quiche_conn then (some (ok s), s) else (none, s)

  abbrev pub receive : Outcome ErrorKind (Bytes × RecvInfo) → QuicConnectorState C → Turn
  receive (err timed_out) s = (none, on_timeout s)
  receive (err e) s = (some (err e), s)
  receive (ok (buf, info)) s = after_recv (recv buf s)

  -- Behind the send: a connection that is closed has timed out.
  abbrev pub unless_closed : Outcome ErrorKind (Bytes × RecvInfo) → QuicConnectorState C → Turn
  unless_closed r s = if Q.is_closed s.quiche_conn then (some (err timed_out), s) else receive r s

  abbrev pub after_send :
      Exchange → Outcome ErrorKind (Option (Bytes × I)) × QuicConnectorState C → Turn
  after_send x (err e, s) = (some (err e), s)
  after_send x (ok none, s) = unless_closed x.received s
  after_send x (ok (some packet), s) = elim x.sent [
    | err e ↦ (some (err e), s)
    | ok u ↦ unless_closed x.received s
  ]

  unfoldable pub turn : ℕ → Exchange → QuicConnectorState C → Turn
  unfolding send recv on_timeout
  turn n x s = after_send x (send n s)

  -- The loop over what the socket does; `none` if it waits still.
  abbrev pub next_turn :
      Turn
      → (QuicConnectorState C → Option (Outcome ErrorKind (QuicConnectorState C)))
      → Option (Outcome ErrorKind (QuicConnectorState C))
  next_turn (some r, s) rest = some r
  next_turn (none, s) rest = rest s

  unfoldable pub handshake_loop :
      ℕ → List Exchange → QuicConnectorState C → Option (Outcome ErrorKind (QuicConnectorState C))
  unfolding turn
  handshake_loop n [] s = none
  handshake_loop n (x ∷ xs) s = next_turn (turn n x s) (λ u. handshake_loop n xs u)

-- `connect` over the results for the addresses in the order in which it tries them; `none` is the panic
-- of `unwrap`.
abbrev pub connect_any :
    {A : Type 0} → Option ErrorKind → List (Outcome ErrorKind A) → Option (Outcome ErrorKind A)
connect_any none [] = none
connect_any (some e) [] = some (err e)
connect_any lastest (ok a ∷ rs) = some (ok a)
connect_any lastest (err e ∷ rs) = connect_any (some e) rs
