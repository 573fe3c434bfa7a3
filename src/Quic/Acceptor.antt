-- ===== src/Quic/Acceptor.antt =====
-- crates/net/quic/src/state/listener.rs: `QuicAcceptor`, the handshake of incoming connections.
pub mod Token
pub mod Pending
use hala_rs.Base.{
  ℕ, ◌+◌, ◌≡◌, Bool, true, false, not, Option, none, some, List, [], ◌∷◌, ◌++◌, Outcome, ok, err,
  ltb, ◌==◌, if◌then◌else◌, length, take, drop,
}
use hala_rs.Base.Maps.{Text-Eq, same_text, lookup, remove, insert}
use hala_rs.Io.Error.{ErrorKind, interrupted}
use hala_rs.Io.ReadBuf.{Bytes}
use hala_rs.Quic.Api.{QuicheError, done, Quiche, into_io_error, quiche_error}

pub data IpAddr : Type 0 where
  v4 : Bytes → IpAddr
  v6 : Bytes → IpAddr

abbrev pub octets : IpAddr → Bytes
octets (v4 a) = a
octets (v6 a) = a

pub record SocketAddr : Type 0 where
  pub ip : IpAddr
  pub port : ℕ

pub record RecvInfo : Type 0 where
  pub from : SocketAddr
  pub to : SocketAddr

-- `quiche::Type`, with the token that the header of an initial packet has.
pub data PacketType : Type 0 where
  initial : Bytes → PacketType
  another : PacketType

-- `quiche::Header`
pub record Header : Type 0 where
  pub ty : PacketType
  pub version : ℕ
  pub dcid : Bytes
  pub scid : Bytes

-- The functions of quiche and ring that the acceptor calls, with its configuration and seed in them.
pub record Server (C I : Type 0) : Type 0 where
  pub header_from_slice : Bytes → Outcome QuicheError Header
  pub version_is_supported : ℕ → Bool
  pub max_conn_id_len : ℕ
  pub accept : Bytes → Bytes → RecvInfo → Outcome QuicheError C
  pub retry : Bytes → Bytes → Bytes → Bytes → ℕ → Outcome QuicheError Bytes
  pub negotiate_version : Bytes → Bytes → Outcome QuicheError Bytes
  pub sign : Bytes → Bytes
  pub send_info : SocketAddr → SocketAddr → I

-- `QuicAcceptorHandshake`; the packet to send stands for its length in the buffer.
pub data Handshake (C I : Type 0) : Type 0 where
  unhandled : Bytes → Handshake C I
  incoming : (conn : C) (write_size : ℕ) (packet : Bytes) (info : I) → Handshake C I
  internal : (write_size : ℕ) (packet : Bytes) (info : I) → Handshake C I

abbrev pub quiche_prefix : Bytes
quiche_prefix = b'q' ∷ b'u' ∷ b'i' ∷ b'c' ∷ b'h' ∷ b'e' ∷ []

unfoldable pub validate_token : Bytes → SocketAddr → Outcome ErrorKind Bytes
validate_token token src =
    if ltb (length token) 6
    then err interrupted
    else if not (same_text (take 6 token) quiche_prefix)
    then err interrupted
    else let rest = drop 6 token in
      let addr = octets src.ip in
      if ltb (length rest) (length addr)
      then err interrupted
      else if not (same_text (take (length addr) rest) addr)
      then err interrupted
      else ok (drop (length addr) rest)

unfoldable pub mint_token : Header → SocketAddr → Bytes
mint_token hdr src = quiche_prefix ++ (octets src.ip ++ hdr.dcid)

-- The table `pre_established_conns`.
abbrev pub Conns : Type 0 → Type 0
Conns C = List (Bytes × C)

module _ {C I : Type 0} (Q : Quiche C I) (S : Server C I) where
  abbrev pub Answer : Type 0
  Answer = Outcome ErrorKind (Handshake C I) × Conns C

  -- The packet that the connection has to send, or none.
  abbrev pub reply : RecvInfo → Outcome QuicheError (Bytes × I) → Outcome ErrorKind (Bytes × I)
  reply info (ok r) = ok r
  reply info (err done) = ok ([], S.send_info info.to info.from)
  reply info (err e) = err (into_io_error (quiche_error e))

  abbrev pub settle : Bytes → ℕ → Outcome ErrorKind (Bytes × I) → C → Conns C → Answer
  settle id n (err e) c conns = (err e, conns)
  settle id n (ok (packet, info)) c conns =
      if Q.is_established c
      then (ok (incoming c n packet info), conns)
      else (ok (internal n packet info), insert id c conns)

  abbrev pub received : Bytes → ℕ → RecvInfo → Outcome QuicheError ℕ × C → Conns C → Answer
  received id room info (err e, c) conns = (err (into_io_error (quiche_error e)), conns)
  received id room info (ok n, c) conns =
      let (r, c') = Q.send room c in settle id n (reply info r) c' conns

  -- `recv`, `send` and `is_established`, as `handshake` and `client_hello` both do.
  abbrev pub drive : Bytes → Bytes → ℕ → RecvInfo → C → Conns C → Answer
  drive id buf n info c conns = received id (length buf) info (Q.recv (take n buf) c) conns

  abbrev pub send_packet : ℕ → RecvInfo → Outcome QuicheError Bytes → Conns C → Answer
  send_packet n info (err e) conns = (err (into_io_error (quiche_error e)), conns)
  send_packet n info (ok packet) conns =
      (ok (internal n packet (S.send_info info.to info.from)), conns)

  unfoldable pub negotiation_version : Header → RecvInfo → ℕ → Conns C → Answer
  negotiation_version hdr info n conns =
      send_packet n info (S.negotiate_version hdr.scid hdr.dcid) conns

  unfoldable pub retry : Header → RecvInfo → ℕ → Conns C → Answer
  unfolding mint_token
  retry hdr info n conns =
      let new_scid = take S.max_conn_id_len (S.sign hdr.dcid) in
      send_packet n info (S.retry hdr.scid hdr.dcid new_scid (mint_token hdr info.from) hdr.version)
        conns

  abbrev pub accepted : Bytes → Bytes → ℕ → RecvInfo → Outcome QuicheError C → Conns C → Answer
  accepted id buf n info (err e) conns = (err (into_io_error (quiche_error e)), conns)
  accepted id buf n info (ok c) conns = drive id buf n info c conns

  abbrev pub validated : Header → Bytes → ℕ → RecvInfo → Outcome ErrorKind Bytes → Conns C → Answer
  validated hdr buf n info (err e) conns = (err e, conns)
  validated hdr buf n info (ok odcid) conns =
      if length hdr.dcid == S.max_conn_id_len
      then accepted hdr.dcid buf n info (S.accept hdr.dcid odcid info) conns
      else (err interrupted, conns)

  unfoldable pub client_hello : Header → Bytes → Bytes → ℕ → RecvInfo → Conns C → Answer
  unfolding negotiation_version retry validate_token
  client_hello hdr token buf n info conns =
      if not (S.version_is_supported hdr.version)
      then negotiation_version hdr info n conns
      else if length token == 0
      then retry hdr info n conns
      else validated hdr buf n info (validate_token token info.from) conns

  abbrev pub first_packet : PacketType → Header → Bytes → ℕ → RecvInfo → Conns C → Answer
  first_packet (initial token) hdr buf n info conns = client_hello hdr token buf n info conns
  first_packet another hdr buf n info conns = (ok (unhandled hdr.dcid), conns)

  abbrev pub known : Option C → Header → Bytes → ℕ → RecvInfo → Conns C → Answer
  known none hdr buf n info conns = first_packet hdr.ty hdr buf n info conns
  known (some c) hdr buf n info conns = drive hdr.dcid buf n info c (remove hdr.dcid conns)

  abbrev pub with_header : Outcome QuicheError Header → Bytes → ℕ → RecvInfo → Conns C → Answer
  with_header (err e) buf n info conns = (err (into_io_error (quiche_error e)), conns)
  with_header (ok hdr) buf n info conns = known (lookup hdr.dcid conns) hdr buf n info conns

  unfoldable pub handshake : Bytes → ℕ → RecvInfo → Conns C → Answer
  unfolding client_hello lookup remove insert
  handshake buf n info conns = with_header (S.header_from_slice (take n buf)) buf n info conns
