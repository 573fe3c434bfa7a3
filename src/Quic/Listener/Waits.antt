-- ===== src/Quic/Listener/Waits.antt =====
-- The waker that waits in `accept` of crates/net/quic/src/state/listener.rs.
use hala_rs.Base.{
  ℕ, ◌≡◌, ◌⊎◌, inl, inr, refl, Bool, true, false, Option, none, some, List, [], ◌∷◌, Outcome, ok,
  err, Bool-cases, get_elem?, arith, if◌then◌else◌,
}
use hala_rs.Base.Maps.{lookup, lookup-insert}
use hala_rs.Base.Sets.{contains}
use hala_rs.Io.Error.{ErrorKind}
use hala_rs.Io.ReadBuf.{Bytes}
use hala_rs.Future.EventMap.{notify_one, on, EventMap}
use hala_rs.Quic.Api.{Quiche}
use hala_rs.Quic.Acceptor.{Server}
use hala_rs.Quic.Listener.{
  ListenerEvent, incoming_event, ListenerEvent-Eq, Peer, QuicListenerState, WriteResult, close,
  notify_incoming, handle_listener_statuts, batch_read, remove_conn,
}
use hala_rs.Quic.Listener.Calls.{
  Round, again, finished, write, accept, on_read, take_task, pop_incoming,
}
use hala_rs.Quic.Listener.Effect.{
  Effect, hangs, fails, delivers, answers, arrives, turns_away, write-Effect,
}
use hala_rs.Quic.Listener.Runs.{
  Call, writing, accepting, reading, reading_closed, closing, Run, start, log_written, perform_read,
  perform, run, log_accepted, then_status-holds,
}
use hala_rs.Quic.Listener.Accept.{Good, run-Good, start-Good}

notified-woken :
    (m : EventMap ListenerEvent) (w : ℕ)
    → lookup incoming_event m.wakers ≡ some w
    → contains w (notify_one incoming_event on m).1.woken ≡ true
unfolding notify_one
notified-woken m w e = rw (notify_one, e) (ground arith)

module _ {C I : Type 0} where
  -- What a call does to the waker that waits in `accept`: it calls it, leaves it registered, or is a
  -- call of `accept` whose waker takes its place.
  abbrev pub Heeded : ℕ → Call I → QuicListenerState C → Type 0
  Heeded w call s =
      (contains w s.mediator.woken ≡ true)
      ⊎ ((lookup incoming_event s.mediator.wakers ≡ some w)
          ⊎ ((v : ℕ) × (call ≡ accepting v) × (lookup incoming_event s.mediator.wakers ≡ some v)))

  Same-Heeded :
      (w : ℕ) (call : Call I) (s u : QuicListenerState C)
      → u.mediator ≡ s.mediator
      → lookup incoming_event s.mediator.wakers ≡ some w
      → Heeded w call u
  Same-Heeded w call s u m e = inr (inl (rw m e))

  write-Heeded :
      (w : ℕ) (call : Call I) (r : Run C)
      (o : Option (Outcome ErrorKind (WriteResult I) × QuicListenerState C))
      → Effect r.listener o
      → Good r
      → lookup incoming_event r.listener.mediator.wakers ≡ some w
      → Heeded w call (log_written o r).listener
  write-Heeded w call r o hangs h e = inr (inl e)
  write-Heeded w call r o (fails k {u = u} same) h e =
      Same-Heeded w call r.listener u same.same_mediator e
  write-Heeded w call r o (delivers n {u = u} same) h e =
      Same-Heeded w call r.listener u same.same_mediator e
  write-Heeded w call r o (answers n packet info {u = u} same) h e =
      Same-Heeded w call r.listener u same.same_mediator e
  write-Heeded w call r o (arrives p n packet info {u = u} q a) h e =
      inl (rw a.new_mediator (notified-woken r.listener.mediator w e))
  write-Heeded w call r o (turns_away k f) h e = let (q, g) = h.open_queue k in absurd (cc)

  read-Heeded :
      (w : ℕ) (call : Call I) (r : Run C) (p : Option Peer) (result : Outcome ErrorKind (Bytes × I))
      → lookup incoming_event r.listener.mediator.wakers ≡ some w
      → Heeded w call (perform_read p result r).listener
  unfolding on_read remove_conn batch_read
  read-Heeded w call r none result e = inr (inl e)
  read-Heeded w call r (some p) (err k) e =
      let s = record r.listener { conns_read = take_task r.listener.conns_read p.handle } in
      then_status-holds (λ u. Heeded w call u) (handle_listener_statuts r.listener)
        (again, remove_conn p.scid s) s (inr (inl e)) (inr (inl e))
  read-Heeded w call r (some p) (ok bytes) e =
      let s = record r.listener { conns_read = take_task r.listener.conns_read p.handle } in
      then_status-holds (λ u. Heeded w call u) (handle_listener_statuts r.listener)
        (finished (ok bytes), batch_read p s) s (inr (inl e)) (inr (inl e))

  accept-Heeded :
      (w v : ℕ) (r : Run C) (o : Option (List Peer))
      → lookup incoming_event r.listener.mediator.wakers ≡ some w
      → Heeded w (accepting v) (log_accepted (pop_incoming v o r.listener) r).listener
  unfolding ListenerEvent-Eq
  accept-Heeded w v r none e = inr (inl e)
  accept-Heeded w v r (some []) e = inr (
      inr (
        v,
        refl,
        ground (arith, lookup-insert incoming_event incoming_event v r.listener.mediator.wakers),
      ))
  accept-Heeded w v r (some (p ∷ q)) e = inr (inl e)

  close-Heeded :
      (w : ℕ) (call : Call I) (s : QuicListenerState C) (b : Bool)
      → lookup incoming_event s.mediator.wakers ≡ some w
      → Heeded w call (
          if b
          then record s { conns_read_closed = true }
          else notify_incoming (record s { closed = true; incoming = none }))
  close-Heeded w call s true e = inr (inl e)
  close-Heeded w call s false e = inl (notified-woken s.mediator w e)

module _ {C I : Type 0} (Q : Quiche C I) (S : Server C I) (source_id : C → Bytes) where
  perform-Heeded :
      (w : ℕ) (call : Call I) (r : Run C)
      → Good r
      → lookup incoming_event r.listener.mediator.wakers ≡ some w
      → Heeded w call (perform Q S source_id call r).listener
  unfolding perform accept close on_read
  perform-Heeded w (writing now ping buf n info) r h e =
      write-Heeded w (writing now ping buf n info) r
        (write Q S source_id now ping buf n info r.listener)
        (write-Effect Q S source_id now ping buf n info r.listener) h e
  perform-Heeded w (accepting v) r h e = accept-Heeded w v r r.listener.incoming e
  perform-Heeded w (reading task result) r h e =
      read-Heeded w (reading task result) r (get_elem? r.listener.conns_read task) result e
  perform-Heeded w reading_closed r h e =
      let round : Round (Outcome ErrorKind (Bytes × I)) × QuicListenerState C =
        (again, r.listener) in
      then_status-holds (λ u. Heeded {I = I} w reading_closed u)
        (handle_listener_statuts r.listener) round r.listener (inr (inl e)) (inr (inl e))
  perform-Heeded w closing r h e = close-Heeded w closing r.listener r.listener.closed e

-- After any calls, a waker that a call of `accept` has registered stands only beside an empty queue of
-- an open listener. The next call, whatever it is, calls it, or leaves it there, or is another call of
-- `accept`, whose waker takes its place.
pub accept_waits_on_empty :
    {C I : Type 0} (Q : Quiche C I) (S : Server C I) (source_id : C → Bytes) (calls : List (Call I))
    (w : ℕ) (call : Call I)
    → lookup incoming_event (run Q S source_id calls (start C)).listener.mediator.wakers ≡ some w
    → ((run Q S source_id calls (start C)).listener.incoming ≡ some [])
      × ((run Q S source_id calls (start C)).listener.closed ≡ false)
      × Heeded w call (perform Q S source_id call (run Q S source_id calls (start C))).listener
accept_waits_on_empty {C = C} Q S source_id calls w call e =
    let h = run-Good Q S source_id calls (start C) (start-Good C) in
    let empty = h.waits w e in
    (
      empty,
      elim (Bool-cases (run Q S source_id calls (start C)).listener.closed) [
        | inl c ↦ absurd (cc (h.closed_queue c))
        | inr c ↦ c
      ],
      perform-Heeded Q S source_id w call (run Q S source_id calls (start C)) h e,
    )
