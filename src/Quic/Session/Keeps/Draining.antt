-- ===== src/Quic/Session/Keeps/Draining.antt =====
-- A relation that the small updates of crates/net/quic/src/state/conn.rs keep is kept by every call.
use hala_rs.Base.{
  ℕ, suc, zero, ◌≡◌, refl, ◌<◌, arith, Bool, true, false, Option, none, some, List, [], ◌∷◌,
  Outcome, ok, err,
}
use hala_rs.Base.Maps.{insert, Nat-Eq}
use hala_rs.Io.ReadBuf.{Bytes}
use hala_rs.Quic.Event.{Event-Eq}
use hala_rs.Quic.Api.{
  QuicheError, done, invalid_stream_state, stream_stopped, stream_limit, other_error, Quiche,
}
use hala_rs.Quic.Conn.{
  QuicConnState, Handled, with_conn, handle_quic_conn_status, handle_stream_events,
}
use hala_rs.Quic.Conn.Dropping.{
  set_half_closed, after_recv, after_resp, handle_half_closed_stream_resp,
  handle_half_closed_streams,
}
use hala_rs.Quic.Conn.Packets.{
  drain_half_closed, with_result, after_events, after_recv_packet, write_open, write,
}
use hala_rs.Quic.Session.Keeps.{status-P, events-P}
use hala_rs.Quic.Session.Keeps.Streams.{fail_with-P}
use hala_rs.Quic.Session.Stable.{Stable}

-- A stream that is half closed is drained in as many rounds as the fuel allows, unless quiche gives an
-- empty quantum.
module _ {C I : Type 0} (Q : Quiche C I) where
  abbrev pub HasQuantum : Type 0
  HasQuantum = (c : C) → 0 < Q.send_quantum c

  after_recv-eq :
      (loop : C → Option (Bool × C)) (r : Outcome QuicheError (Bytes × Bool) × C)
      → ((bs : Bytes) (c : C) → r ≡ (ok (bs, false), c) → (p : Bool × C) × (loop c ≡ some p))
      → (p : Bool × C) × (after_recv loop r ≡ some p)
  after_recv-eq loop (ok (bs, false), c) g = g bs c refl
  after_recv-eq loop (ok (bs, true), c) g = ((true, c), refl)
  after_recv-eq loop (err done, c) g = ((false, c), refl)
  after_recv-eq loop (err (invalid_stream_state i), c) g = ((true, c), refl)
  after_recv-eq loop (err (stream_stopped i), c) g = ((true, c), refl)
  after_recv-eq loop (err stream_limit, c) g = ((true, c), refl)
  after_recv-eq loop (err (other_error i), c) g = ((true, c), refl)

  resp-eq :
      HasQuantum
      → (fuel id : ℕ) (c : C) → Q.unread id c < fuel
      → (r : Bool × C) × (handle_half_closed_stream_resp Q fuel id c ≡ some r)
  unfolding handle_half_closed_stream_resp
  resp-eq pos zero id c h = absurd (omega (arith, h))
  resp-eq pos (suc fuel) id c h =
      after_recv-eq (λ c. handle_half_closed_stream_resp Q fuel id c)
        (Q.stream_recv id (Q.send_quantum c) c)
        (λ bs c' u.
          resp-eq pos fuel id c'
            (omega (arith, h, Q.unread-stream_recv id (Q.send_quantum c) c c' bs (pos c) u)))

module _ {C I : Type 0} (Q : Quiche C I) {P : List ℕ → List ℕ → QuicConnState C → Type 0}
    (st : Stable P) (o a : List ℕ) where
  -- What holds of the connection still holds, and the call ends unless a quantum may be empty.
  abbrev pub Kept : Option (QuicConnState C) → Type 0
  Kept none = ¬ HasQuantum Q
  Kept (some s) = P o a s

  abbrev pub EndsKept : Option (Handled C ℕ) → Type 0
  EndsKept none = ¬ HasQuantum Q
  EndsKept (some h) = P o a h.1

  after_resp-P :
      (id t : ℕ) (rest : QuicConnState C → Option (QuicConnState C)) (s : QuicConnState C)
      (r : Option (Bool × C))
      → (HasQuantum Q → (p : Bool × C) × (r ≡ some p))
      → P o a s
      → ((s : QuicConnState C) → P o a s → Kept (rest s))
      → Kept (after_resp id t rest s r)
  unfolding after_resp
  after_resp-P id t rest s none u h g = λ pos. cc (u pos).1
  after_resp-P id t rest s (some (true, c)) u h g = g (with_conn c s) (st.conn_stable o a c s h)
  after_resp-P id t rest s (some (false, c)) u h g =
      g (set_half_closed (insert id t s.state.half_closed_streams) (with_conn c s)) (
        st.half_closed_stable o a (insert id t s.state.half_closed_streams) (with_conn c s)
          (st.conn_stable o a c s h))

  half_closed-P :
      (streams : List (ℕ × ℕ)) (s : QuicConnState C)
      → P o a s
      → Kept (handle_half_closed_streams Q streams s)
  unfolding handle_half_closed_streams
  half_closed-P [] s h = h
  half_closed-P ((id, t) ∷ streams) s h =
      let c = s.state.quiche_conn in
      let fuel = suc (Q.unread id c) in
      after_resp-P id t (λ s. handle_half_closed_streams Q streams s) s
        (handle_half_closed_stream_resp Q fuel id c) (λ pos. resp-eq Q pos fuel id c (omega arith))
        h (λ s h. half_closed-P streams s h)

  with_result-P : (n : ℕ) (r : Option (QuicConnState C)) → Kept r → EndsKept (with_result Q n r)
  with_result-P n none h = h
  with_result-P n (some s) h = h

  after_events-P : (n : ℕ) (r : Handled C (Unit {0})) → P o a r.1 → EndsKept (after_events Q n r)
  after_events-P n (err e, s) h = h
  after_events-P n (ok u, s) h = with_result-P n (drain_half_closed Q s) (
      half_closed-P s.state.half_closed_streams (set_half_closed [] s)
        (st.half_closed_stable o a [] s h))

  after_recv_packet-P :
      (r : Outcome QuicheError ℕ × C) (s : QuicConnState C)
      → P o a s
      → EndsKept (after_recv_packet Q r s)
  after_recv_packet-P (ok n, c) s h =
      let s' = with_conn c s in
      after_events-P n (handle_stream_events Q s') (events-P Q st o a s' (st.conn_stable o a c s h))
  after_recv_packet-P (err e, c) s h =
      fail_with-P Q st o a ℕ e (with_conn c s) (st.conn_stable o a c s h)

  write_open-P :
      (buf : Bytes) (r : Handled C (Unit {0})) → P o a r.1 → EndsKept (write_open Q buf r)
  write_open-P buf (err e, s) h = h
  write_open-P buf (ok u, s) h = after_recv_packet-P (Q.recv buf s.state.quiche_conn) s h

  pub write-P : (buf : Bytes) (s : QuicConnState C) → P o a s → EndsKept (write Q buf s)
  unfolding write
  write-P buf s h = write_open-P buf (handle_quic_conn_status Q s) (status-P Q st o a s h)
