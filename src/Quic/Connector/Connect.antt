-- ===== src/Quic/Connector/Connect.antt =====
-- What the loop of `connect_with` of crates/net/quic/src/conn.rs returns.
use hala_rs.Base.{
  ℕ, ◌≡◌, ◌⊎◌, inl, inr, refl, true, false, none, some, List, [], ◌∷◌, Outcome, ok, err, Bool-cases,
  Outcome-cases,
}
use hala_rs.Io.Error.{ErrorKind, timed_out, connection_refused}
use hala_rs.Io.ReadBuf.{Bytes}
use hala_rs.Quic.Acceptor.{RecvInfo}
use hala_rs.Quic.Api.{QuicheError, done, Quiche}
use hala_rs.Quic.Connector.{
  QuicConnectorState, Exchange, sends, send, receives, recv, on_timeout, Turn, after_recv, receive,
  unless_closed, after_send, turn, next_turn, handshake_loop,
}

-- The error is one of the handshake, or one of the socket in a round.
abbrev pub Blamed : ErrorKind → List Exchange → Type 0
Blamed e [] = (e ≡ connection_refused) ⊎ (e ≡ timed_out)
Blamed e (x ∷ xs) = ((x.sent ≡ err e) ⊎ (x.received ≡ err e)) ⊎ Blamed e xs

handshake-Blamed :
    (e : ErrorKind) (xs : List Exchange) → (e ≡ connection_refused) ⊎ (e ≡ timed_out) → Blamed e xs
handshake-Blamed e [] h = h
handshake-Blamed e (x ∷ xs) h = inr (handshake-Blamed e xs h)

module _ {C I : Type 0} (Q : Quiche C I) where
  -- The connection that the loop returns, or the error.
  abbrev pub Ends : List Exchange → ℕ → Outcome ErrorKind (QuicConnectorState C) → Type 0
  Ends xs ping (err e) = Blamed e xs
  Ends xs ping (ok s) =
      (Q.is_established s.quiche_conn ≡ true)
      × (Q.is_closed s.quiche_conn ≡ false)
      × (s.ping_timeout ≡ ping)

  abbrev TurnEnds : Exchange → ℕ → Turn Q → Type 0
  TurnEnds x ping (none, s) = s.ping_timeout ≡ ping
  TurnEnds x ping (some r, s) = Ends (x ∷ []) ping r

  receives-TurnEnds :
      (x : Exchange) (r : Outcome QuicheError ℕ × C) (s : QuicConnectorState C)
      → TurnEnds x s.ping_timeout (after_recv Q (receives Q r s))
  receives-TurnEnds x (err e, c) s = inr (inl refl)
  receives-TurnEnds x (ok n, c) s = elim (Bool-cases (Q.is_closed c)) [
    | inl e ↦ rw e (inr (inl refl))
    | inr e ↦ elim (Bool-cases (Q.is_established c)) [
      | inl f ↦ rw (e, f) (f, e, refl)
      | inr f ↦ rw (e, f) refl
    ]
  ]

  receive-TurnEnds :
      (x : Exchange) (r : Outcome ErrorKind (Bytes × RecvInfo)) (s : QuicConnectorState C)
      → x.received ≡ r
      → TurnEnds x s.ping_timeout (receive Q r s)
  unfolding recv on_timeout
  receive-TurnEnds x (err timed_out) s e = refl
  receive-TurnEnds x (ok (buf, info)) s e = receives-TurnEnds x (Q.recv buf s.quiche_conn) s
  receive-TurnEnds x (err k) s e = inl (inr e)

  unless_closed-TurnEnds :
      (x : Exchange) (s : QuicConnectorState C)
      → TurnEnds x s.ping_timeout (unless_closed Q x.received s)
  unless_closed-TurnEnds x s = elim (Bool-cases (Q.is_closed s.quiche_conn)) [
    | inl e ↦ rw e (inr (inr refl))
    | inr e ↦ rw e (receive-TurnEnds x x.received s refl)
  ]

  sends-TurnEnds :
      (x : Exchange) (r : Outcome QuicheError (Bytes × I) × C) (s : QuicConnectorState C)
      → TurnEnds x s.ping_timeout (after_send Q x (sends Q r s))
  sends-TurnEnds x (ok packet, c) s = elim (Outcome-cases x.sent) [
    | inl (u, e) ↦ rw e (unless_closed-TurnEnds x (record s { quiche_conn = c }))
    | inr (k, e) ↦ rw e (inl (inl e))
  ]
  sends-TurnEnds x (err done, c) s = unless_closed-TurnEnds x (record s { quiche_conn = c })
  sends-TurnEnds x (err e, c) s = inr (inl refl)

  more_rounds :
      (x : Exchange) (xs : List Exchange) (ping : ℕ) (r : Outcome ErrorKind (QuicConnectorState C))
      → Ends (x ∷ []) ping r
      → Ends (x ∷ xs) ping r
  more_rounds x xs ping (ok s) h = h
  more_rounds x xs ping (err e) (inl h) = inl h
  more_rounds x xs ping (err e) (inr h) = inr (handshake-Blamed e xs h)

  later_rounds :
      (x : Exchange) (xs : List Exchange) (ping : ℕ) (r : Outcome ErrorKind (QuicConnectorState C))
      → Ends xs ping r
      → Ends (x ∷ xs) ping r
  later_rounds x xs ping (ok s) h = h
  later_rounds x xs ping (err e) h = inr h

  -- A round of the loop with what the rest of it gives.
  next_turn-Ends :
      (n : ℕ) (x : Exchange) (xs : List Exchange) (ping : ℕ) (t : Turn Q)
      (r : Outcome ErrorKind (QuicConnectorState C))
      → ((u : QuicConnectorState C) → handshake_loop Q n xs u ≡ some r → Ends xs u.ping_timeout r)
      → TurnEnds x ping t
      → next_turn Q t (λ u. handshake_loop Q n xs u) ≡ some r
      → Ends (x ∷ xs) ping r
  next_turn-Ends n x xs ping (some q, u) r rest h e =
      let same : q ≡ r = cc in rw same at (more_rounds x xs ping q h)
  next_turn-Ends n x xs ping (none, u) r rest h e = later_rounds x xs ping r (rw h at (rest u e))

  -- The handshake of a client ends with a connection that is established and not closed, and has the
  -- ping interval that it began with; or with a refusal or a timeout, or with an error that the socket
  -- gave in one of the rounds.
  pub handshake_loop_lem :
      (n : ℕ) (xs : List Exchange) (s : QuicConnectorState C)
      (r : Outcome ErrorKind (QuicConnectorState C))
      → handshake_loop Q n xs s ≡ some r
      → Ends xs s.ping_timeout r
  unfolding handshake_loop turn send
  handshake_loop_lem n [] s r e = cc
  handshake_loop_lem n (x ∷ xs) s r e =
      next_turn-Ends n x xs s.ping_timeout (turn Q n x s) r (λ u f. handshake_loop_lem n xs u r f)
        (sends-TurnEnds x (Q.send n s.quiche_conn) s) e
