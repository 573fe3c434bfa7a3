-- ===== src/Quic/Session/Limits.antt =====
-- The stream limit and the end of a packet's handling, crates/net/quic/src/state/conn.rs.
use hala_rs.Base.{
  ℕ, ◌-◌, ◌≡◌, refl, arith, false, Option, none, some, List, [], Option-cases, suc, length, inl,
  inr,
}
use hala_rs.Base.Sets.{contains, add}
use hala_rs.Io.ReadBuf.{Bytes}
use hala_rs.Quic.Api.{Quiche}
use hala_rs.Quic.Conn.{QuicConnState, Handled, new, is_finished, handle_quic_conn_status}
use hala_rs.Quic.Conn.Calls.{opened_state, open_stream}
use mathlib.Core.Option.{map}
use hala_rs.Quic.Conn.Packets.{streams_left, peer_streams_left_bidi, write}
use hala_rs.Quic.Session.{Call, run}
use hala_rs.Quic.Session.Stable.{Stable}
use hala_rs.Quic.Session.Runs.{run-P}
use hala_rs.Quic.Session.Ids.{start, Numbered-Stable, below-unseen}
use hala_rs.Quic.Session.Keeps.Draining.{HasQuantum, EndsKept, write-P}

Any-Stable : {C : Type 0} → Stable {C = C} (λ o a s. Unit {0})
Any-Stable = record {
  conn_stable = λ o a c s h. h;
  mediator_stable = λ o a m s h. h;
  ping_stable = λ o a t s h. h;
  queue_stable = λ o a ids s h. h;
  half_closed_stable = λ o a m s h. h;
  discard_stable = λ o a id s h. h;
  incoming_stable = λ o a id s u h. h;
  open_stable = λ o a s h. h;
  accept_stable = λ o a id ids s u h. h;
}

streams_left-suc :
    (left cached : ℕ) (o : Option ℕ)
    → streams_left left (suc cached) o ≡ map (λ n. n - 1) (streams_left left cached o)
streams_left-suc left cached none = refl
streams_left-suc left cached (some m) = ground arith

module _ {C I : Type 0} (Q : Quiche C I) where
  unseen-left :
      (s : QuicConnState C)
      → is_finished Q s.state.quiche_conn ≡ false
      → contains s.state.lastest_outgoing_stream_id s.state.register_outgoing_stream_ids ≡ false
      → peer_streams_left_bidi Q (open_stream Q s).1 ≡ map (λ n. n - 1) (peer_streams_left_bidi Q s)
  unfolding peer_streams_left_bidi open_stream handle_quic_conn_status opened_state add
  unseen-left s u v =
      rw (u, v)
        (streams_left-suc (Q.peer_streams_left_bidi s.state.quiche_conn)
          (length s.state.register_outgoing_stream_ids)
          (Q.initial_max_streams_bidi s.state.quiche_conn))

  -- In any session, `open_stream` on a connection that is not finished takes one from what
  -- `peer_streams_left_bidi` tells, down to 0; where that panics, for want of the transport parameters
  -- of the peer, it does so behind `open_stream` too.
  pub peer_streams_left-open_stream :
      (c : C) (ping first now : ℕ) (calls : List Call)
      → let s = (run Q calls (start (new Q c ping first now))).conn in
        is_finished Q s.state.quiche_conn ≡ false
        → peer_streams_left_bidi Q (open_stream Q s).1
          ≡ map (λ n. n - 1) (peer_streams_left_bidi Q s)
  unfolding new
  peer_streams_left-open_stream c ping first now calls u =
      let s = run Q calls (start (new Q c ping first now)) in
      let h =
        run-P Q (Numbered-Stable first) calls (start (new Q c ping first now))
          (refl, omega arith, tt) in
      unseen-left s.conn u (
        below-unseen s.conn.state.lastest_outgoing_stream_id
          s.conn.state.register_outgoing_stream_ids h.2)

  ended : HasQuantum Q → (r : Option (Handled C ℕ)) → r ≡ none → EndsKept Q Any-Stable [] [] r → ⊥
  ended pos none u h = h pos
  ended pos (some r) u h = cc

  -- Where no quantum of quiche is empty, the handling of a packet ends, whatever streams are half
  -- closed: the fuel of their draining is enough.
  pub write_ends :
      HasQuantum Q
      → (buf : Bytes) (s : QuicConnState C) → (r : Handled C ℕ) × (write Q buf s ≡ some r)
  write_ends pos buf s = elim (Option-cases (write Q buf s)) [
    | inl u ↦ absurd (ended pos (write Q buf s) u (write-P Q Any-Stable [] [] buf s tt))
    | inr h ↦ h
  ]
