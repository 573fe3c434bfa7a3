-- ===== src/Quic/Listener/Accept.antt =====
-- The connections that `accept` of crates/net/quic/src/state/listener.rs returns.
use hala_rs.Base.{
  ℕ, ◌≡◌, ◌⊎◌, inl, inr, refl, ap, sym, ◌∙◌, Bool, true, false, Option, none, some, List, [], ◌∷◌,
  ◌++◌, Outcome, ok, err, append_assoc, get_elem?, if◌then◌else◌,
}
use hala_rs.Base.Maps.{lookup}
use hala_rs.Io.Error.{ErrorKind}
use hala_rs.Io.ReadBuf.{Bytes}
use hala_rs.Future.EventMap.{notify_one, on, EventMap}
use hala_rs.Future.EventMap.Broadcast.{lookup-notify_one}
use hala_rs.Quic.Api.{Quiche}
use hala_rs.Quic.Acceptor.{Server}
use hala_rs.Quic.Listener.{
  ListenerEvent, incoming_event, ListenerEvent-Eq, Peer, QuicListenerState, WriteResult, close,
  notify_incoming, handle_listener_statuts, batch_read, remove_conn,
}
use hala_rs.Quic.Listener.Calls.{
  Round, again, finished, write, accept, on_read, take_task, pop_incoming,
}
use hala_rs.Quic.Listener.Effect.{
  Same, Arrival, Effect, hangs, fails, delivers, answers, arrives, turns_away, write-Effect,
}
use hala_rs.Quic.Listener.Runs.{
  Call, writing, accepting, reading, reading_closed, closing, Run, start, log_written, perform_read,
  perform, run, log_accepted, then_status-holds,
}

abbrev pub InOrder : Option (List Peer) → List Peer → List Peer → Type 0
InOrder none accepted arrived = (rest : List Peer) × (arrived ≡ accepted ++ rest)
InOrder (some q) accepted arrived = arrived ≡ accepted ++ q

pub record Inv (closed : Bool) (incoming : Option (List Peer)) (mediator : EventMap ListenerEvent)
    (accepted arrived : List Peer) : Type 0 where
  pub open_queue : closed ≡ false → (q : List Peer) × (incoming ≡ some q)
  pub closed_queue : closed ≡ true → incoming ≡ none
  pub in_order : InOrder incoming accepted arrived
  pub waits : (w : ℕ) → lookup incoming_event mediator.wakers ≡ some w → incoming ≡ some []

module _ {C : Type 0} where
  abbrev pub Good : Run C → Type 0
  Good r = Inv r.listener.closed r.listener.incoming r.listener.mediator r.accepted r.arrived

notified :
    (m : EventMap ListenerEvent) (w : ℕ)
    → lookup incoming_event (notify_one incoming_event on m).1.wakers ≡ some w
    → ⊥
unfolding ListenerEvent-Eq
notified m w e = cc (lookup-notify_one incoming_event incoming_event on m)

module _ {C : Type 0} where
  Same-Good :
      (r : Run C) (u : QuicListenerState C)
      → Same r.listener u
      → Good r
      → Good (record r { listener = u })
  Same-Good r u same h = rw (same.same_closed, same.same_incoming, same.same_mediator) h

  Arrival-Good :
      (r : Run C) (u : QuicListenerState C) (p : Peer) (q : List Peer)
      → Arrival p q r.listener u
      → Good r
      → Good (record r { arrived = r.arrived ++ (p ∷ []); listener = u })
  Arrival-Good r u p q a h =
      let before : r.arrived ≡ r.accepted ++ q = rw a.was_queue at h.in_order in
      rw (a.new_closed, a.new_incoming, a.new_mediator)
        (record {
          open_queue = λ e. (q ++ (p ∷ []), refl);
          closed_queue = λ e. cc;
          in_order = ap (λ xs. xs ++ (p ∷ [])) before ∙ append_assoc r.accepted q (p ∷ []);
          waits = λ w e. absurd (notified r.listener.mediator w e);
        })

module _ {C I : Type 0} where
  write-Good :
      (r : Run C) (o : Option (Outcome ErrorKind (WriteResult I) × QuicListenerState C))
      → Effect r.listener o
      → Good r
      → Good (log_written o r)
  write-Good r o hangs h = h
  write-Good r o (fails e {u = u} same) h = Same-Good r u same h
  write-Good r o (delivers n {u = u} same) h = Same-Good r u same h
  write-Good r o (answers n packet info {u = u} same) h = Same-Good r u same h
  write-Good r o (arrives p n packet info {u = u} q a) h = Arrival-Good r u p q a h
  write-Good r o (turns_away k e) h = let (q, f) = h.open_queue k in absurd (cc)

  read-Good :
      (r : Run C) (p : Option Peer) (result : Outcome ErrorKind (Bytes × I))
      → Good r
      → Good (perform_read p result r)
  unfolding on_read
  read-Good r none result h = h
  read-Good r (some p) (err e) h =
      let s = record r.listener { conns_read = take_task r.listener.conns_read p.handle } in
      then_status-holds (λ u. Good (record r { failed = p.handle ∷ r.failed; listener = u }))
        (handle_listener_statuts r.listener) (again, remove_conn p.scid s) s h h
  read-Good r (some p) (ok bytes) h =
      let s = record r.listener { conns_read = take_task r.listener.conns_read p.handle } in
      then_status-holds (λ u. Good (record r { listener = u })) (handle_listener_statuts r.listener)
        (finished (ok bytes), batch_read p s) s h h

module _ {C : Type 0} where
  accept-Good :
      (r : Run C) (w : ℕ) (o : Option (List Peer))
      → r.listener.incoming ≡ o
      → Good r
      → Good (log_accepted (pop_incoming w o r.listener) r)
  accept-Good r w none e h = h
  accept-Good r w (some []) e h = record {
    open_queue = h.open_queue;
    closed_queue = h.closed_queue;
    in_order = h.in_order;
    waits = λ v f. e;
  }
  accept-Good r w (some (p ∷ q)) e h =
      let before : r.arrived ≡ r.accepted ++ (p ∷ q) = rw e at h.in_order in
      record {
        open_queue = λ k. (q, refl);
        closed_queue = λ k. absurd (cc (h.closed_queue k));
        in_order = before ∙ sym (append_assoc r.accepted (p ∷ []) q);
        waits = λ v f. absurd (cc (h.waits v f));
      }

  close-Good :
      (r : Run C) (b : Bool)
      → r.listener.closed ≡ b
      → Good r
      → Good (record r {
        listener =
            if b
            then record r.listener { conns_read_closed = true }
            else notify_incoming (record r.listener { closed = true; incoming = none });
      })
  close-Good r true e h = h
  close-Good r false e h =
      let (q, f) = h.open_queue e in
      record {
        open_queue = λ k. cc;
        closed_queue = λ k. refl;
        in_order = (q, rw f at h.in_order);
        waits = λ v g. absurd (notified r.listener.mediator v g);
      }

module _ {C I : Type 0} (Q : Quiche C I) (S : Server C I) (source_id : C → Bytes) where
  pub perform-Good : (call : Call I) (r : Run C) → Good r → Good (perform Q S source_id call r)
  unfolding perform accept close on_read
  perform-Good (writing now ping_timeout buf n info) r h =
      write-Good r (write Q S source_id now ping_timeout buf n info r.listener)
        (write-Effect Q S source_id now ping_timeout buf n info r.listener) h
  perform-Good (accepting w) r h = accept-Good r w r.listener.incoming refl h
  perform-Good (reading task result) r h =
      read-Good r (get_elem? r.listener.conns_read task) result h
  perform-Good reading_closed r h =
      let round : Round (Outcome ErrorKind (Bytes × I)) × QuicListenerState C =
        (again, r.listener) in
      then_status-holds (λ u. Good (record r { listener = u })) (handle_listener_statuts r.listener)
        round r.listener h h
  perform-Good closing r h = close-Good r r.listener.closed refl h

  pub run-Good : (calls : List (Call I)) (r : Run C) → Good r → Good (run Q S source_id calls r)
  unfolding run
  run-Good [] r h = h
  run-Good (call ∷ calls) r h =
      run-Good calls (perform Q S source_id call r) (perform-Good call r h)

pub start-Good : (C : Type 0) → Good (start C)
unfolding ListenerEvent-Eq lookup
start-Good C = record {
  open_queue = λ e. ([], refl);
  closed_queue = λ e. cc;
  in_order = refl;
  waits = λ w e. cc;
}

queue-order :
    (closed : Bool) (o : Option (List Peer)) (mediator : EventMap ListenerEvent)
    (accepted arrived : List Peer)
    → Inv closed o mediator accepted arrived
    → (rest : List Peer) × (arrived ≡ accepted ++ rest)
      × (((closed ≡ false) × (o ≡ some rest)) ⊎ ((closed ≡ true) × (o ≡ none)))
queue-order true none m a xs h = (h.in_order.0, h.in_order.1, inr (refl, refl))
queue-order false none m a xs h = absurd (cc (h.open_queue refl).1)
queue-order false (some q) m a xs h = (q, h.in_order, inl (refl, refl))
queue-order true (some q) m a xs h = absurd (cc (h.closed_queue refl))

-- Whether the listener is closed after the calls.
abbrev pub closed_after :
    {C I : Type 0} → Quiche C I → Server C I → (C → Bytes) → List (Call I) → Bool
closed_after {C = C} Q S source_id calls = (run Q S source_id calls (start C)).listener.closed

-- After any calls, the connections that `accept` has returned are those that `write` has reported, in
-- their order and each once, up to those that an open listener still queues; of a closed listener the
-- queue is gone, and with it the connections that were in it.
pub accepts_in_order :
    {C I : Type 0} (Q : Quiche C I) (S : Server C I) (source_id : C → Bytes) (calls : List (Call I))
    → (rest : List Peer) × ((run Q S source_id calls (start C)).arrived
        ≡ (run Q S source_id calls (start C)).accepted ++ rest)
      × (((closed_after Q S source_id calls ≡ false)
            × ((run Q S source_id calls (start C)).listener.incoming ≡ some rest))
          ⊎ ((closed_after Q S source_id calls ≡ true)
              × ((run Q S source_id calls (start C)).listener.incoming ≡ none)))
accepts_in_order {C = C} Q S source_id calls =
    let r = run Q S source_id calls (start C) in
    queue-order r.listener.closed r.listener.incoming r.listener.mediator r.accepted r.arrived
      (run-Good Q S source_id calls (start C) (start-Good C))
