-- ===== src/Quic/Listener/Closings.antt =====
-- What the calls of `close` of crates/net/quic/src/state/listener.rs have done after any calls.
use hala_rs.Base.{
  ℕ, suc, inl, inr, Bool-cases, ◌+◌, ◌≡◌, refl, sym, ◌∙◌, Option, none, some, List, [], ◌∷◌,
  Outcome, ok, err, leb, get_elem?, arith,
}
use hala_rs.Io.Error.{ErrorKind}
use hala_rs.Io.ReadBuf.{Bytes}
use hala_rs.Quic.Api.{Quiche}
use hala_rs.Quic.Acceptor.{Server}
use hala_rs.Quic.Listener.{
  Peer, QuicListenerState, WriteResult, close, handle_listener_statuts, batch_read, remove_conn,
}
use hala_rs.Quic.Listener.Calls.{
  Round, again, finished, write, accept, on_read, take_task, pop_incoming,
}
use hala_rs.Quic.Listener.Effect.{
  Same, Effect, hangs, fails, delivers, answers, arrives, turns_away, write-Effect,
}
use hala_rs.Quic.Listener.Runs.{
  Call, writing, accepting, reading, reading_closed, closing, Run, start, log_written, perform_read,
  perform, run, log_accepted, then_status-holds,
}
use hala_rs.Quic.Listener.Accept.{Good, perform-Good, start-Good}

-- The number of calls of `close` among the calls.
abbrev pub closings : {I : Type 0} → List (Call I) → ℕ
closings [] = 0
closings (closing ∷ calls) = suc (closings calls)
closings (call ∷ calls) = closings calls

module _ {C : Type 0} where
  -- The listener is closed once `close` was called, its batcher once it was called twice.
  abbrev Counted : ℕ → QuicListenerState C → Type 0
  Counted n s = (s.closed ≡ leb 1 n) × (s.conns_read_closed ≡ leb 2 n)

  Same-Counted : (n : ℕ) (s u : QuicListenerState C) → Same s u → Counted n s → Counted n u
  Same-Counted n s u same h = rw (same.same_closed, same.same_read_closed) h

  accept-Counted :
      (n w : ℕ) (r : Run C) (o : Option (List Peer))
      → Counted n r.listener
      → Counted n (log_accepted (pop_incoming w o r.listener) r).listener
  accept-Counted n w r none h = h
  accept-Counted n w r (some []) h = h
  accept-Counted n w r (some (p ∷ q)) h = h

  close-Counted : (n : ℕ) (s : QuicListenerState C) → Counted n s → Counted (suc n) (close s)
  unfolding close
  close-Counted n s (c, b) = elim (Bool-cases s.closed) [
    | inl e ↦ rw e (ground (arith, c, e), ground (arith, c, e))
    | inr e ↦ rw e (ground (arith, c, e), ground (arith, c, b, e))
  ]

module _ {C I : Type 0} where
  write-Counted :
      (n : ℕ) (r : Run C) (o : Option (Outcome ErrorKind (WriteResult I) × QuicListenerState C))
      → Effect r.listener o
      → Good r
      → Counted n r.listener
      → Counted n (log_written o r).listener
  write-Counted n r o hangs g h = h
  write-Counted n r o (fails e {u = u} same) g h = Same-Counted n r.listener u same h
  write-Counted n r o (delivers m {u = u} same) g h = Same-Counted n r.listener u same h
  write-Counted n r o (answers m packet info {u = u} same) g h = Same-Counted n r.listener u same h
  write-Counted n r o (arrives p m packet info {u = u} q a) g h =
      (a.new_closed ∙ sym a.was_open ∙ h.0, a.new_read_closed ∙ h.1)
  write-Counted n r o (turns_away k e) g h = let (q, f) = g.open_queue k in absurd (cc)

  read-Counted :
      (n : ℕ) (r : Run C) (p : Option Peer) (result : Outcome ErrorKind (Bytes × I))
      → Counted n r.listener
      → Counted n (perform_read p result r).listener
  unfolding on_read remove_conn batch_read
  read-Counted n r none result h = h
  read-Counted n r (some p) (err e) h =
      let s = record r.listener { conns_read = take_task r.listener.conns_read p.handle } in
      then_status-holds (λ u. Counted n u) (handle_listener_statuts r.listener)
        (again, remove_conn p.scid s) s h h
  read-Counted n r (some p) (ok bytes) h =
      let s = record r.listener { conns_read = take_task r.listener.conns_read p.handle } in
      then_status-holds (λ u. Counted n u) (handle_listener_statuts r.listener)
        (finished (ok bytes), batch_read p s) s h h

module _ {C I : Type 0} (Q : Quiche C I) (S : Server C I) (source_id : C → Bytes) where
  run-Counted :
      (calls : List (Call I)) (n : ℕ) (r : Run C)
      → Good r
      → Counted n r.listener
      → Counted (closings calls + n) (run Q S source_id calls r).listener
  unfolding run perform accept on_read
  run-Counted [] n r g h = let e : n ≡ 0 + n = omega arith in rw e at h
  run-Counted (writing now ping buf m info ∷ calls) n r g h =
      let call = writing now ping buf m info in
      run-Counted calls n (perform Q S source_id call r) (perform-Good Q S source_id call r g) (
        write-Counted n r (write Q S source_id now ping buf m info r.listener)
          (write-Effect Q S source_id now ping buf m info r.listener) g h)
  run-Counted (accepting w ∷ calls) n r g h =
      run-Counted calls n (perform Q S source_id (accepting w) r)
        (perform-Good Q S source_id (accepting w) r g) (accept-Counted n w r r.listener.incoming h)
  run-Counted (reading task result ∷ calls) n r g h =
      let call = reading task result in
      run-Counted calls n (perform Q S source_id call r) (perform-Good Q S source_id call r g)
        (read-Counted n r (get_elem? r.listener.conns_read task) result h)
  run-Counted (reading_closed ∷ calls) n r g h =
      let round : Round (Outcome ErrorKind (Bytes × I)) × QuicListenerState C =
        (again, r.listener) in
      run-Counted calls n (perform Q S source_id reading_closed r)
        (perform-Good Q S source_id reading_closed r g)
        (then_status-holds (λ u. Counted n u) (handle_listener_statuts r.listener) round r.listener
          h h)
  run-Counted (closing ∷ calls) n r g h =
      let s = (run Q S source_id calls (perform Q S source_id closing r)).listener in
      let done : Counted (closings calls + suc n) s =
        run-Counted calls (suc n) (perform Q S source_id closing r)
          (perform-Good Q S source_id closing r g) (close-Counted n r.listener h) in
      let moved : closings calls + suc n ≡ suc (closings calls) + n = omega arith in
      rw moved at done

-- After any calls, the listener is closed exactly if `close` is among them, and the batcher of its reads,
-- for which a call of `read` may wait, exactly if `close` is among them twice.
pub batcher_closed_twice :
    {C I : Type 0} (Q : Quiche C I) (S : Server C I) (source_id : C → Bytes) (calls : List (Call I))
    → let s = (run Q S source_id calls (start C)).listener in
      (s.closed ≡ leb 1 (closings calls)) × (s.conns_read_closed ≡ leb 2 (closings calls))
batcher_closed_twice {C = C} Q S source_id calls =
    let h = run-Counted Q S source_id calls 0 (start C) (start-Good C) (refl, refl) in
    let e : closings calls + 0 ≡ closings calls = omega arith in rw e at h
