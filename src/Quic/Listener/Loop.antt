-- ===== src/Quic/Listener/Loop.antt =====
-- crates/net/quic/src/listener.rs: the task that receives the packets of a listener, over what its
-- socket does.
use hala_rs.Base.{
  ℕ, ◌≡◌, refl, ap, false, Option, none, some, List, [], ◌∷◌, ◌++◌, Outcome, ok, err, ltb, take,
  length, if◌then◌else◌,
}
use hala_rs.Io.Error.{ErrorKind, broken_pipe}
use hala_rs.Io.ReadBuf.{Bytes}
use hala_rs.Quic.Api.{QuicheError, Quiche, into_io_error, quiche_error}
use hala_rs.Quic.Acceptor.{Server, RecvInfo, handshake}
use hala_rs.Quic.Listener.{
  QuicListenerState, WriteResult, write_size, internal_packet, incoming_conn,
  handle_listener_statuts,
}
use hala_rs.Quic.Listener.Calls.{write}

-- A round: the time, what `recv_from` gives (the buffer with a packet at its front, and its size), and
-- what `send_to_on_path` would give.
pub record Round : Type 0 where
  pub now : ℕ
  pub received : Outcome ErrorKind (Bytes × ℕ × RecvInfo)
  pub sent : Outcome ErrorKind (Unit {0})

-- The listener and the packets that were sent.
pub record Served (C I : Type 0) : Type 0 where
  pub listener : QuicListenerState C
  pub sent_packets : List (Bytes × I)

-- Where the loop stands: it has ended with an error, hangs in a call, or waits for a packet.
pub data Stand : Type 0 where
  stopped : ErrorKind → Stand
  hanging : Stand
  receiving : Stand

module _ {C I : Type 0} where
  abbrev pub forward : Bytes → I → Outcome ErrorKind (Unit {0}) → Served C I → Stand × Served C I
  forward packet info (err e) s = (stopped e, s)
  forward packet info (ok u) s =
      (receiving, record s { sent_packets = s.sent_packets ++ ((packet, info) ∷ []) })

  abbrev pub on_result :
      WriteResult I → Outcome ErrorKind (Unit {0}) → Served C I → Stand × Served C I
  on_result (internal_packet n packet info) sent s =
      if ltb 0 (length packet) then forward packet info sent s else (receiving, s)
  on_result (write_size n) sent s = (receiving, s)
  on_result (incoming_conn p n packet info) sent s = (receiving, s)

  abbrev pub on_write :
      Option (Outcome ErrorKind (WriteResult I) × QuicListenerState C)
      → Outcome ErrorKind (Unit {0})
      → Served C I
      → Stand × Served C I
  on_write none sent s = (hanging, s)
  on_write (some (err e, l)) sent s = (stopped e, record s { listener = l })
  on_write (some (ok r, l)) sent s = on_result r sent (record s { listener = l })

module _ {C I : Type 0} (Q : Quiche C I) (S : Server C I) (source_id : C → Bytes)
    (ping_timeout : ℕ) where
  abbrev pub on_receive :
      ℕ
      → Outcome ErrorKind (Bytes × ℕ × RecvInfo)
      → Outcome ErrorKind (Unit {0})
      → Served C I
      → Stand × Served C I
  on_receive now (err e) sent s = (stopped e, s)
  on_receive now (ok (buf, n, info)) sent s =
      on_write (write Q S source_id now ping_timeout buf n info s.listener) sent s

  abbrev pub go_on : Stand × Served C I → (Served C I → Stand × Served C I) → Stand × Served C I
  go_on (receiving, s) rest = rest s
  go_on (stopped e, s) rest = (stopped e, s)
  go_on (hanging, s) rest = (hanging, s)

  unfoldable pub recv_event_loop : List Round → Served C I → Stand × Served C I
  unfolding write
  recv_event_loop [] s = (receiving, s)
  recv_event_loop (x ∷ xs) s =
      go_on (on_receive x.now x.received x.sent s) (λ u. recv_event_loop xs u)

  open_status : (l : QuicListenerState C) → l.closed ≡ false → handle_listener_statuts l ≡ ok tt
  unfolding handle_listener_statuts
  open_status l is_open = ap (λ b. if b then err broken_pipe else ok tt) is_open

  -- One packet that quiche cannot read ends the loop: whatever the rounds behind it bring, an open
  -- listener handles none of them, sends nothing more and is left as it was.
  pub malformed_packet_stops :
      (now n : ℕ) (buf : Bytes) (info : RecvInfo) (sent : Outcome ErrorKind (Unit {0}))
      (rounds : List Round) (s : Served C I) (e : QuicheError)
      → s.listener.closed ≡ false
      → S.header_from_slice (take n buf) ≡ err e
      → recv_event_loop (record { now = now; received = ok (buf, n, info); sent = sent } ∷ rounds) s
        ≡ (stopped (into_io_error (quiche_error e)), s)
  unfolding recv_event_loop write handshake
  malformed_packet_stops now n buf info sent rounds s e is_open bad =
      let status = open_status s.listener is_open in rw (status, bad) refl
