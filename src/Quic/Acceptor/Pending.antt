-- ===== src/Quic/Acceptor/Pending.antt =====
-- The table of connections in their handshake, crates/net/quic/src/state/listener.rs.
use hala_rs.Base.{
  ℕ, ◌≡◌, inl, inr, arith, true, false, Option, none, some, Outcome, ok, err, length, ◌==◌, take,
  Bool-cases,
}
use hala_rs.Base.Maps.{Text-Eq, same_text, lookup, remove, insert, lookup-remove, lookup-insert}
use hala_rs.Io.Error.{ErrorKind}
use hala_rs.Io.ReadBuf.{Bytes}
use hala_rs.Quic.Api.{QuicheError, Quiche}
use hala_rs.Quic.Acceptor.{
  RecvInfo, Header, PacketType, initial, another, Server, unhandled, incoming, internal, Conns,
  Answer, reply, settle, received, send_packet, negotiation_version, retry, accepted, validated,
  validate_token, client_hello, first_packet, known, with_header, handshake,
}

module _ {C I : Type 0} (Q : Quiche C I) (S : Server C I) where
  -- No connection in the table is established.
  abbrev pub Pending : Conns C → Type 0
  Pending conns = (id : Bytes) (c : C) → lookup id conns ≡ some c → Q.is_established c ≡ false

  -- What an answer says of the connections.
  abbrev pub Sorted : Answer Q S → Type 0
  Sorted (ok (incoming c n packet info), conns) = (Q.is_established c ≡ true) × Pending conns
  Sorted (ok (internal n packet info), conns) = Pending conns
  Sorted (ok (unhandled id), conns) = Pending conns
  Sorted (err e, conns) = Pending conns

  insert-Pending :
      (id : Bytes) (c : C) (conns : Conns C)
      → Q.is_established c ≡ false
      → Pending conns
      → Pending (insert id c conns)
  unfolding Text-Eq
  insert-Pending id c conns u h j d e = elim (Bool-cases (same_text id j)) [
    | inl v ↦ ground (arith, u, e, v, lookup-insert id j c conns)
    | inr v ↦ h j d (ground (arith, e, v, lookup-insert id j c conns))
  ]

  remove-Pending : (id : Bytes) (conns : Conns C) → Pending conns → Pending (remove id conns)
  unfolding Text-Eq
  remove-Pending id conns h j d e = elim (Bool-cases (same_text id j)) [
    | inl v ↦ absurd (ground (arith, e, v, lookup-remove id j conns))
    | inr v ↦ h j d (ground (arith, e, v, lookup-remove id j conns))
  ]

  settle-Sorted :
      (id : Bytes) (n : ℕ) (r : Outcome ErrorKind (Bytes × I)) (c : C) (conns : Conns C)
      → Pending conns
      → Sorted (settle Q S id n r c conns)
  settle-Sorted id n (err e) c conns h = h
  settle-Sorted id n (ok (packet, info)) c conns h = elim (Bool-cases (Q.is_established c)) [
    | inl u ↦ rw u (u, h)
    | inr u ↦ rw u (insert-Pending id c conns u h)
  ]

  received-Sorted :
      (id : Bytes) (room : ℕ) (info : RecvInfo) (r : Outcome QuicheError ℕ × C) (conns : Conns C)
      → Pending conns
      → Sorted (received Q S id room info r conns)
  received-Sorted id room info (err e, c) conns h = h
  received-Sorted id room info (ok n, c) conns h =
      let (r, c') = Q.send room c in settle-Sorted id n (reply Q S info r) c' conns h

  packet-Sorted :
      (n : ℕ) (info : RecvInfo) (r : Outcome QuicheError Bytes) (conns : Conns C)
      → Pending conns
      → Sorted (send_packet Q S n info r conns)
  packet-Sorted n info (err e) conns h = h
  packet-Sorted n info (ok packet) conns h = h

  accepted-Sorted :
      (id buf : Bytes) (n : ℕ) (info : RecvInfo) (r : Outcome QuicheError C) (conns : Conns C)
      → Pending conns
      → Sorted (accepted Q S id buf n info r conns)
  accepted-Sorted id buf n info (err e) conns h = h
  accepted-Sorted id buf n info (ok c) conns h =
      received-Sorted id (length buf) info (Q.recv (take n buf) c) conns h

  validated-Sorted :
      (hdr : Header) (buf : Bytes) (n : ℕ) (info : RecvInfo) (r : Outcome ErrorKind Bytes)
      (conns : Conns C)
      → Pending conns
      → Sorted (validated Q S hdr buf n info r conns)
  validated-Sorted hdr buf n info (err e) conns h = h
  validated-Sorted hdr buf n info (ok odcid) conns h =
      elim (Bool-cases (length hdr.dcid == S.max_conn_id_len)) [
        | inl u ↦ rw u (accepted-Sorted hdr.dcid buf n info (S.accept hdr.dcid odcid info) conns h)
        | inr u ↦ rw u h
      ]

  client_hello-Sorted :
      (hdr : Header) (token buf : Bytes) (n : ℕ) (info : RecvInfo) (conns : Conns C)
      → Pending conns
      → Sorted (client_hello Q S hdr token buf n info conns)
  unfolding client_hello negotiation_version retry
  client_hello-Sorted hdr token buf n info conns h =
      elim (Bool-cases (S.version_is_supported hdr.version)) [
        | inr u ↦ rw u (packet-Sorted n info _ conns h)
        | inl u ↦ elim (Bool-cases (length token == 0)) [
          | inl v ↦ rw (u, v) (packet-Sorted n info _ conns h)
          | inr v ↦
              rw (u, v) (validated-Sorted hdr buf n info (validate_token token info.from) conns h)
        ]
      ]

  first_packet-Sorted :
      (ty : PacketType) (hdr : Header) (buf : Bytes) (n : ℕ) (info : RecvInfo) (conns : Conns C)
      → Pending conns
      → Sorted (first_packet Q S ty hdr buf n info conns)
  first_packet-Sorted (initial token) hdr buf n info conns h =
      client_hello-Sorted hdr token buf n info conns h
  first_packet-Sorted another hdr buf n info conns h = h

  known-Sorted :
      (c : Option C) (hdr : Header) (buf : Bytes) (n : ℕ) (info : RecvInfo) (conns : Conns C)
      → Pending conns
      → Sorted (known Q S c hdr buf n info conns)
  known-Sorted none hdr buf n info conns h = first_packet-Sorted hdr.ty hdr buf n info conns h
  known-Sorted (some c) hdr buf n info conns h =
      received-Sorted hdr.dcid (length buf) info (Q.recv (take n buf) c) (remove hdr.dcid conns)
        (remove-Pending hdr.dcid conns h)

  with_header-Sorted :
      (r : Outcome QuicheError Header) (buf : Bytes) (n : ℕ) (info : RecvInfo) (conns : Conns C)
      → Pending conns
      → Sorted (with_header Q S r buf n info conns)
  with_header-Sorted (err e) buf n info conns h = h
  with_header-Sorted (ok hdr) buf n info conns h =
      known-Sorted (lookup hdr.dcid conns) hdr buf n info conns h

  -- Every packet keeps the two kinds of connections apart: where no connection in the table is
  -- established, none is after `handshake`, and a connection that it gives out is established.
  pub handshake-Sorted :
      (buf : Bytes) (n : ℕ) (info : RecvInfo) (conns : Conns C)
      → ((id : Bytes) (c : C) → lookup id conns ≡ some c → Q.is_established c ≡ false)
      → Sorted (handshake Q S buf n info conns)
  unfolding handshake
  handshake-Sorted buf n info conns h =
      with_header-Sorted (S.header_from_slice (take n buf)) buf n info conns h
