-- ===== src/Quic/Conn/Closing.antt =====
-- The closing of streams and the timer of pings, crates/net/quic/src/state/conn.rs.
use hala_rs.Base.{
  ℕ, ◌+◌, ◌-◌, ◌≤◌, ◌<◌, ◌≡◌, ◌⊎◌, inl, inr, refl, arith, Bool, true, Option, none, some, List, [],
  ◌∷◌, Outcome, ok, err, ltb, ◌==◌, if◌then◌else◌, Bool-cases,
}
use hala_rs.Base.Maps.{Nat-Eq, lookup, lookup-insert}
use hala_rs.Base.Sets.{contains, contains-append}
use hala_rs.Io.Error.{broken_pipe}
use hala_rs.Io.ReadBuf.{Bytes}
use hala_rs.Future.EventMap.{EventMap, notify_one, notify_all, cancel}
use hala_rs.Future.EventMap.Broadcast.{lookup-notify_one}
use hala_rs.Quic.Event.{Event, stream_readable, stream_writable, Event-Eq}
use hala_rs.Quic.Api.{
  QuicheError, done, into_io_error, quiche_error, invalid_stream_state, stream_stopped,
  stream_limit, other_error, Quiche,
}
use hala_rs.Quic.Conn.{
  RawState, Handled, QuicConnState, with_conn, is_finished, handle_quic_conn_status,
  handle_stream_status,
}
use hala_rs.Quic.Conn.Dropping.{
  half_close, after_fin, drop_loop, handle_dropping_streams, handle_send_timout, after_ping,
  next_timeout,
}
use hala_rs.Quic.Conn.Calls.{finished, stream_send}

cancelled-lookup :
    (id x : ℕ) (m : EventMap Event)
    → lookup
        (stream_writable id)
        (notify_all (stream_writable x ∷ stream_readable x ∷ []) cancel m).wakers
      ≡ (if x == id then none else lookup (stream_writable id) m.wakers)
unfolding notify_all Event-Eq
cancelled-lookup id x m =
    let m' = (notify_one (stream_writable x) cancel m).1 in
    ground (
      arith,
      lookup-notify_one (stream_writable x) (stream_writable id) cancel m,
      lookup-notify_one (stream_readable x) (stream_writable id) cancel m',
    )

module _ {C : Type 0} where
  -- No task waits to write the stream, which is half closed.
  abbrev Quiet : ℕ → QuicConnState C → Type 0
  Quiet id s =
      (lookup (stream_writable id) s.mediator.wakers ≡ none)
      × ((t : ℕ) × (lookup id s.state.half_closed_streams ≡ some t))

  abbrev Covered : ℕ → List ℕ × QuicConnState C → Type 0
  Covered id (pending, s) = (contains id pending ≡ true) ⊎ Quiet id s

  half_close-Quiet :
      (id x now : ℕ) (s : QuicConnState C) → (x ≡ id) ⊎ Quiet id s → Quiet id (half_close x now s)
  unfolding half_close Nat-Eq
  half_close-Quiet id x now s h =
      let cleared = cancelled-lookup id x s.mediator in
      let kept = lookup-insert x id now s.state.half_closed_streams in
      elim h [
        | inl u ↦ (ground (arith, u, cleared), (now, ground (arith, u, kept)))
        | inr (v, (t, w)) ↦ elim (Bool-cases (x == id)) [
          | inl u ↦ (ground (arith, u, cleared), (now, ground (arith, u, kept)))
          | inr u ↦ (ground (arith, u, v, cleared), (t, ground (arith, u, w, kept)))
        ]
      ]

  queued : (id x : ℕ) (r : List ℕ × QuicConnState C) → Covered id r → Covered id (x ∷ r.0, r.1)
  queued id x r (inl u) = inl (ground (arith, u))
  queued id x r (inr h) = inr h

  -- What is left to show for a stream: it is still in the queue, or its closing is done.
  abbrev Ahead : Bool → ℕ → QuicConnState C → Type 0
  Ahead b id s = (b ≡ true) ⊎ Quiet id s

  half_close-Ahead :
      (b : Bool) (id x now : ℕ) (s : QuicConnState C)
      → (x ≡ id) ⊎ Ahead b id s
      → Ahead b id (half_close x now s)
  half_close-Ahead b id x now s (inl u) = inr (half_close-Quiet id x now s (inl u))
  half_close-Ahead b id x now s (inr (inl u)) = inl u
  half_close-Ahead b id x now s (inr (inr h)) = inr (half_close-Quiet id x now s (inr h))

  after_fin-Covered :
      (b : Bool) (id x now : ℕ) (r : Outcome QuicheError ℕ × C) (s : QuicConnState C)
      (rest : QuicConnState C → List ℕ × QuicConnState C)
      → (x ≡ id) ⊎ Ahead b id s
      → ((s : QuicConnState C) → Ahead b id s → Covered id (rest s))
      → Covered id (after_fin x now r s rest)
  after_fin-Covered b id x now (ok n, c) s rest h g =
      g (half_close x now (with_conn c s)) (half_close-Ahead b id x now (with_conn c s) h)
  after_fin-Covered b id x now (err done, c) s rest (inl u) g = inl (ground (arith, u))
  after_fin-Covered b id x now (err done, c) s rest (inr h) g =
      queued id x (rest (with_conn c s)) (g (with_conn c s) h)
  after_fin-Covered b id x now (err (invalid_stream_state i), c) s rest h g =
      g (half_close x now (with_conn c s)) (half_close-Ahead b id x now (with_conn c s) h)
  after_fin-Covered b id x now (err (stream_stopped i), c) s rest h g =
      g (half_close x now (with_conn c s)) (half_close-Ahead b id x now (with_conn c s) h)
  after_fin-Covered b id x now (err stream_limit, c) s rest h g =
      g (half_close x now (with_conn c s)) (half_close-Ahead b id x now (with_conn c s) h)
  after_fin-Covered b id x now (err (other_error i), c) s rest h g =
      g (half_close x now (with_conn c s)) (half_close-Ahead b id x now (with_conn c s) h)

module _ {C I : Type 0} (Q : Quiche C I) where
  -- The time of the next ping is over, and quiche was asked for it.
  abbrev Pinged : ℕ → RawState C → QuicConnState C → Type 0
  Pinged now r s =
      (r.send_ack_eliciting_instant + r.ping_timeout < now)
      × (s.state.quiche_conn ≡ (Q.send_ack_eliciting r.quiche_conn).1)

  -- What `handle_send_timout` answers, by the time of the next ping.
  abbrev pub Timed : ℕ → RawState C → Handled C (Option ℕ) → Type 0
  Timed now r (err e, s) =
      Pinged now r s
      × (s.state.send_ack_eliciting_instant ≡ r.send_ack_eliciting_instant)
      × ((k : QuicheError) × ((Q.send_ack_eliciting r.quiche_conn).0 ≡ err k)
          × (e ≡ into_io_error (quiche_error k)))
  Timed now r (ok none, s) =
      Pinged now r s
      × (s.state.send_ack_eliciting_instant ≡ now)
      × ((Q.send_ack_eliciting r.quiche_conn).0 ≡ ok tt)
  Timed now r (ok (some n), s) =
      (now + n ≤ r.send_ack_eliciting_instant + r.ping_timeout) × (s.state ≡ r)

module _ {C I : Type 0} (Q : Quiche C I) where
  among :
      (id x : ℕ) (ids : List ℕ) (s : QuicConnState C)
      → (contains id (x ∷ ids) ≡ true) ⊎ Quiet id s
      → (x ≡ id) ⊎ Ahead (contains id ids) id s
  among id x ids s (inr h) = inr (inr h)
  among id x ids s (inl u) = elim (Bool-cases (x == id)) [
    | inl v ↦ inl (ground (arith, v))
    | inr v ↦ inr (inl (ground (arith, u, v)))
  ]

  drop_loop-Covered :
      (id now : ℕ) (ids : List ℕ) (s : QuicConnState C)
      → (contains id ids ≡ true) ⊎ Quiet id s
      → Covered id (drop_loop Q now ids s)
  unfolding drop_loop
  drop_loop-Covered id now [] s (inl u) = cc
  drop_loop-Covered id now [] s (inr h) = inr h
  drop_loop-Covered id now (x ∷ ids) s h =
      after_fin-Covered (contains id ids) id x now (Q.stream_send x [] true s.state.quiche_conn) s
        (λ s. drop_loop Q now ids s) (among id x ids s h) (λ s h. drop_loop-Covered id now ids s h)

  -- One round over the queue of dropped streams forgets none: each is then in the queue again, or
  -- it is half closed and no task waits to write it.
  pub dropping_streams_kept :
      (id now : ℕ) (s : QuicConnState C)
      → contains id s.state.dropping_stream_queue ≡ true
      → let s' = (handle_dropping_streams Q now s).1 in
        (contains id s'.state.dropping_stream_queue ≡ true)
        ⊎ ((lookup (stream_writable id) s'.mediator.wakers ≡ none)
            × ((t : ℕ) × (lookup id s'.state.half_closed_streams ≡ some t)))
  unfolding handle_dropping_streams
  dropping_streams_kept id now s h =
      let emptied = record s { state = record s.state { dropping_stream_queue = [] } } in
      let r = drop_loop Q now s.state.dropping_stream_queue emptied in
      let covered = drop_loop-Covered id now s.state.dropping_stream_queue emptied (inl h) in
      elim covered [
        | inl u ↦ inl (ground (arith, u, contains-append id r.1.state.dropping_stream_queue r.0))
        | inr v ↦ inr v
      ]

  -- On a half closed stream `stream_send` fails with a broken pipe at once, and the locked state
  -- stays as it was, whether or not the whole connection is finished.
  pub stream_send_half_closed :
      (id t : ℕ) (buf : Bytes) (fin : Bool) (s : QuicConnState C)
      → lookup id s.state.half_closed_streams ≡ some t
      → ((stream_send Q id buf fin s).0 ≡ finished (err broken_pipe))
        × ((stream_send Q id buf fin s).1.state ≡ s.state)
  unfolding stream_send handle_quic_conn_status handle_stream_status
  stream_send_half_closed id t buf fin s h = elim (Bool-cases (is_finished Q s.state.quiche_conn)) [
    | inl u ↦ rw u (refl, refl)
    | inr u ↦ rw (u, h) (refl, refl)
  ]

  timeout-next : (ping : ℕ) (t : Option ℕ) → next_timeout ping t ≤ ping
  timeout-next ping none = omega arith
  timeout-next ping (some t) = ground arith

  pinged :
      (now : ℕ) (r : RawState C) (o : Outcome QuicheError (Unit {0}) × C) (s : QuicConnState C)
      → r.send_ack_eliciting_instant + r.ping_timeout < now
      → s.state ≡ r
      → Q.send_ack_eliciting r.quiche_conn ≡ o
      → Timed Q now r (after_ping now o s)
  pinged now r (ok u, c) s h k e = ((h, cc), refl, cc)
  pinged now r (err e, c) s h k f = ((h, cc), rw k refl, (e, cc, refl))

  -- The ping timer: `handle_send_timout` waits no longer than to the time of the next ping; where it
  -- asks for no wait, that time is over, quiche has sent a ping and the timer starts again; where it
  -- fails, that time is over and it has quiche's error for the ping. This is for a clock that does
  -- not go back.
  pub send_timeout_bounds :
      (now : ℕ) (s : QuicConnState C)
      → s.state.send_ack_eliciting_instant ≤ now
      → Timed Q now s.state (handle_send_timout Q now s)
  unfolding handle_send_timout
  send_timeout_bounds now s h =
      let r = s.state in
      let elapsed = now - r.send_ack_eliciting_instant in
      elim (Bool-cases (ltb r.ping_timeout elapsed)) [
        | inl u ↦
            rw u (pinged now r (Q.send_ack_eliciting r.quiche_conn) s (ground (arith, u)) refl refl)
        | inr u ↦ rw u (
            (
              ground (
                arith,
                u,
                h,
                timeout-next (r.ping_timeout - elapsed) (Q.timeout now r.quiche_conn),
              ),
              refl,
            ))
      ]
