-- ===== src/Quic/Listener/Reads.antt =====
-- While crates/net/quic/src/state/listener.rs is open, each of its connections has one read in the
-- batcher.
use hala_rs.Base.{
  ℕ, ◌<◌, ◌≡◌, ◌⊎◌, inl, inr, refl, Bool, true, false, Option, none, some, List, [], ◌∷◌, ◌++◌,
  Outcome, ok, err, Bool-cases, get_elem?, arith, if◌then◌else◌,
}
use hala_rs.Base.Sets.{contains, Nodup}
use hala_rs.Io.Error.{ErrorKind, broken_pipe}
use hala_rs.Io.ReadBuf.{Bytes}
use hala_rs.Quic.Api.{Quiche}
use hala_rs.Quic.Acceptor.{Server}
use hala_rs.Quic.Listener.{
  Peer, QuicListenerState, WriteResult, close, notify_incoming, handle_listener_statuts, batch_read,
  remove_conn,
}
use hala_rs.Quic.Listener.Calls.{Round, again, write, accept, on_read, on_ended, pop_incoming}
use hala_rs.Quic.Listener.Effect.{
  Same, Arrival, Effect, hangs, fails, delivers, answers, arrives, turns_away, write-Effect,
}
use hala_rs.Quic.Listener.Runs.{
  Call, writing, accepting, reading, reading_closed, closing, Run, start, log_written, perform_read,
  perform, run, log_accepted, log_failed, then_status-holds,
}
use hala_rs.Quic.Listener.Accept.{Good, perform-Good, start-Good}
use hala_rs.Quic.Listener.Tasks.{
  handles, All-get_elem?, Inv, enter-Inv, fail-Inv, again-Inv, drop-Inv,
}

module _ {C : Type 0} where
  abbrev Tended : Run C → Type 0
  Tended r = Inv r.listener.closed r.listener.conns_read r.listener.made r.failed

module _ {C : Type 0} where
  Same-Tended :
      (r : Run C) (u : QuicListenerState C)
      → Same r.listener u
      → Tended r
      → Tended (record r { listener = u })
  Same-Tended r u same h = rw (same.same_closed, same.same_read, same.same_made) h

  Arrival-Tended :
      (r : Run C) (u : QuicListenerState C) (p : Peer) (q : List Peer)
      → Arrival p q r.listener u
      → Tended r
      → Tended (record r { arrived = r.arrived ++ (p ∷ []); listener = u })
  Arrival-Tended r u p q a h =
      let before = rw a.was_open at h in
      rw (a.new_closed, a.new_read, a.new_made)
        (enter-Inv false r.listener.conns_read p r.listener.made r.failed before a.new_handle)

  accept-Tended :
      (r : Run C) (w : ℕ) (o : Option (List Peer))
      → Tended r
      → Tended (log_accepted (pop_incoming w o r.listener) r)
  accept-Tended r w none h = h
  accept-Tended r w (some []) h = h
  accept-Tended r w (some (p ∷ q)) h = h

  close-Tended :
      (r : Run C) (b : Bool)
      → r.listener.closed ≡ b
      → Tended r
      → Tended (record r {
        listener =
            if b
            then record r.listener { conns_read_closed = true }
            else notify_incoming (record r.listener { closed = true; incoming = none });
      })
  close-Tended r true e h = h
  close-Tended r false e h = record {
    distinct = h.distinct;
    below = h.below;
    covered = λ k j l. cc;
  }

module _ {C I : Type 0} where
  write-Tended :
      (r : Run C) (o : Option (Outcome ErrorKind (WriteResult I) × QuicListenerState C))
      → Effect r.listener o
      → Good r
      → Tended r
      → Tended (log_written o r)
  write-Tended r o hangs g h = h
  write-Tended r o (fails e {u = u} same) g h = Same-Tended r u same h
  write-Tended r o (delivers n {u = u} same) g h = Same-Tended r u same h
  write-Tended r o (answers n packet info {u = u} same) g h = Same-Tended r u same h
  write-Tended r o (arrives p n packet info {u = u} q a) g h = Arrival-Tended r u p q a h
  write-Tended r o (turns_away k e) g h = let (q, f) = g.open_queue k in absurd (cc)

  -- A read that ends, with the status of the listener.
  ended-Tended :
      (r : Run C) (p : Peer) (result : Outcome ErrorKind (Bytes × I)) (b : Bool)
      → r.listener.closed ≡ b
      → p.handle < r.listener.made
      → Tended r
      → Tended (record r {
        failed = log_failed p result r.failed;
        listener = (on_ended p result (if b then err broken_pipe else ok tt) r.listener).1;
      })
  unfolding remove_conn batch_read
  ended-Tended r p (err k) true e l h =
      fail-Inv r.listener.closed r.listener.conns_read p.handle r.listener.made r.failed h
  ended-Tended r p (err k) false e l h =
      fail-Inv r.listener.closed r.listener.conns_read p.handle r.listener.made r.failed h
  ended-Tended r p (ok bytes) true e l h =
      let closed = rw e at h in
      rw e (drop-Inv r.listener.conns_read p.handle r.listener.made r.failed closed)
  ended-Tended r p (ok bytes) false e l h =
      again-Inv r.listener.closed r.listener.conns_read p r.listener.made r.failed h l

  read-Tended :
      (r : Run C) (i : ℕ) (o : Option Peer) (result : Outcome ErrorKind (Bytes × I))
      → get_elem? r.listener.conns_read i ≡ o
      → Tended r
      → Tended (perform_read o result r)
  unfolding on_read handle_listener_statuts
  read-Tended r i none result e h = h
  read-Tended r i (some p) result e h =
      ended-Tended r p result r.listener.closed refl
        (All-get_elem? (λ h. h < r.listener.made) r.listener.conns_read i p e h.below) h

module _ {C I : Type 0} (Q : Quiche C I) (S : Server C I) (source_id : C → Bytes) where
  perform-Tended :
      (call : Call I) (r : Run C) → Good r → Tended r → Tended (perform Q S source_id call r)
  unfolding perform accept close on_read
  perform-Tended (writing now ping_timeout buf n info) r g h =
      write-Tended r (write Q S source_id now ping_timeout buf n info r.listener)
        (write-Effect Q S source_id now ping_timeout buf n info r.listener) g h
  perform-Tended (accepting w) r g h = accept-Tended r w r.listener.incoming h
  perform-Tended (reading task result) r g h =
      read-Tended r task (get_elem? r.listener.conns_read task) result refl h
  perform-Tended reading_closed r g h =
      let round : Round (Outcome ErrorKind (Bytes × I)) × QuicListenerState C =
        (again, r.listener) in
      then_status-holds (λ u. Tended (record r { listener = u }))
        (handle_listener_statuts r.listener) round r.listener h h
  perform-Tended closing r g h = close-Tended r r.listener.closed refl h

  run-Tended :
      (calls : List (Call I)) (r : Run C) → Good r → Tended r → Tended (run Q S source_id calls r)
  unfolding run
  run-Tended [] r g h = h
  run-Tended (call ∷ calls) r g h =
      run-Tended calls (perform Q S source_id call r) (perform-Good Q S source_id call r g)
        (perform-Tended call r g h)

-- After any calls, no connection has two reads in the batcher; and while the listener is open, each
-- connection that has arrived has one there, unless a read of it has failed.
pub one_read_per_conn :
    {C I : Type 0} (Q : Quiche C I) (S : Server C I) (source_id : C → Bytes) (calls : List (Call I))
    → Nodup (handles (run Q S source_id calls (start C)).listener.conns_read)
      × (((run Q S source_id calls (start C)).listener.closed ≡ true)
          ⊎ ((h : ℕ)
              → h < (run Q S source_id calls (start C)).listener.made
              → (contains h (handles (run Q S source_id calls (start C)).listener.conns_read)
                  ≡ true)
                ⊎ (contains h (run Q S source_id calls (start C)).failed ≡ true)))
one_read_per_conn {C = C} Q S source_id calls =
    let empty : Tended (start C) = record {
      distinct = tt;
      below = tt;
      covered = λ k h l. absurd (omega arith);
    } in
    let h = run-Tended Q S source_id calls (start C) (start-Good C) empty in
    (
      h.distinct,
      elim (Bool-cases (run Q S source_id calls (start C)).listener.closed) [
        | inl c ↦ inl c
        | inr c ↦ inr (h.covered c)
      ],
    )
