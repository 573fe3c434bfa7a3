-- ===== src/Quic/Session/Ids.antt =====
-- The stream ids of crates/net/quic/src/state/conn.rs: those that `open_stream` gives and those that
-- `accept` gives, over a whole session.
use hala_rs.Base.{
  ℕ, zero, suc, ◌+◌, ◌*◌, ◌%◌, ◌<◌, ◌≤◌, ◌≡◌, ◌≢◌, refl, sym, arith, Bool, true, false, List, [],
  ◌∷◌, ◌++◌, append_assoc, ◌==◌, ==_iff, if◌then◌else◌, length, length-append, All, All-append,
}
use hala_rs.Base.Sets.{contains, add, Nodup, Nodup-snoc, contains-append, contains-add, All-discard}
use hala_rs.Quic.Api.{Quiche}
use hala_rs.Quic.Conn.{QuicConnState, new, initial_incoming}
use hala_rs.Quic.Session.{Session, Call, run}
use hala_rs.Quic.Session.Stable.{Stable}
use hala_rs.Quic.Session.Runs.{run-P}

contains-unseen :
    (id : ℕ) (reg xs : List ℕ)
    → contains id reg ≡ false
    → All (λ i. contains i reg ≡ true) xs
    → contains id xs ≡ false
contains-unseen id reg [] u h = refl
contains-unseen id reg (x ∷ xs) u h =
    ground (arith, u, h.0, ==_iff x id, contains-unseen id reg xs u h.1)

All-contains-add :
    (id : ℕ) (reg xs : List ℕ)
    → All (λ i. contains i reg ≡ true) xs
    → All (λ i. contains i (add id reg) ≡ true) xs
All-contains-add id reg [] h = h
All-contains-add id reg (x ∷ xs) h =
    (ground (arith, contains-add id x reg, h.0), All-contains-add id reg xs h.1)

Nodup-prefix : (xs ys : List ℕ) → Nodup (xs ++ ys) → Nodup xs
Nodup-prefix [] ys h = tt
Nodup-prefix (x ∷ xs) ys h = (ground (arith, contains-append x xs ys, h.0), Nodup-prefix xs ys h.1)

-- Every id is in one place only, and registered.
-- An id that arrives for the first time, with those before it.
arrived :
    (id : ℕ) (reg a ids : List ℕ)
    → contains id reg ≡ false
    → Nodup (a ++ ids) × All (λ i. contains i reg ≡ true) (a ++ ids)
    → Nodup (a ++ (ids ++ (id ∷ [])))
      × All (λ i. contains i (add id reg) ≡ true) (a ++ (ids ++ (id ∷ [])))
arrived id reg a ids u h = rw (sym (append_assoc a ids (id ∷ []))) (
  Nodup-snoc (a ++ ids) id h.0 (contains-unseen id reg (a ++ ids) u h.1),
  All-append (λ i. contains i (add id reg) ≡ true) (a ++ ids) (id ∷ [])
      (All-contains-add id reg (a ++ ids) h.1) (ground (arith, contains-add id id reg), tt),
)

abbrev Seen : {C : Type 0} → List ℕ → List ℕ → QuicConnState C → Type 0
Seen o a s =
    let ids = a ++ s.state.incoming in
    Nodup ids × All (λ i. contains i s.state.register_incoming_stream_ids ≡ true) ids

-- The first incoming id taken.
taken :
    {C : Type 0} (id : ℕ) (ids a : List ℕ) (s : QuicConnState C)
    → s.state.incoming ≡ id ∷ ids
    → Seen [] a s
    → let all = (a ++ (id ∷ [])) ++ ids in
      Nodup all × All (λ i. contains i s.state.register_incoming_stream_ids ≡ true) all
taken id ids a s u h = rw (append_assoc a (id ∷ []) ids, sym u) h

Seen-Stable : {C : Type 0} → Stable {C = C} Seen
Seen-Stable = record {
  conn_stable = λ o a c s h. h;
  mediator_stable = λ o a m s h. h;
  ping_stable = λ o a t s h. h;
  queue_stable = λ o a ids s h. h;
  half_closed_stable = λ o a m s h. h;
  discard_stable = λ o a id s h. h;
  incoming_stable =
      λ o a id s u h. arrived id s.state.register_incoming_stream_ids a s.state.incoming u h;
  open_stable = λ o a s h. h;
  accept_stable = λ o a id ids s u h. taken id ids a s u h;
}

registered-if :
    (own : Bool) (id : ℕ) (reg ids : List ℕ)
    → own ≡ false
    → All (λ i. contains i reg ≡ true) ids
    → All (λ i. contains i (if own then reg else add id reg) ≡ true) (id ∷ ids)
registered-if true id reg ids u h = cc
registered-if false id reg ids u h =
    (ground (arith, contains-add id id reg), All-contains-add id reg ids h)

initial-registered :
    (first : ℕ) (ids : List ℕ)
    → All (λ id. id % 2 ≢ first % 2) ids
    → All (λ i. contains i (initial_incoming first ids) ≡ true) ids
initial-registered first [] h = tt
initial-registered first (id ∷ ids) h =
    registered-if (id % 2 == first % 2) id (initial_incoming first ids) ids (ground (arith, h.0))
      (initial-registered first ids h.1)

abbrev pub start : {C : Type 0} → QuicConnState C → Session C
start s = record { opened = []; accepted = []; conn = s }

-- The ids of a session that opened `n` streams.
abbrev pub stream_ids : ℕ → ℕ → List ℕ
stream_ids first zero = []
stream_ids first (suc n) = stream_ids first n ++ ((first + 4 * n) ∷ [])

abbrev pub Numbered : {C : Type 0} → ℕ → List ℕ → List ℕ → QuicConnState C → Type 0
Numbered first o a s =
    (o ≡ stream_ids first (length o))
    × (s.state.lastest_outgoing_stream_id ≡ first + 4 * length o)
    × All (λ i. i < s.state.lastest_outgoing_stream_id) s.state.register_outgoing_stream_ids

All-below : (m n : ℕ) (xs : List ℕ) → m ≤ n → All (λ i. i < m) xs → All (λ i. i < n) xs
All-below m n [] u h = tt
All-below m n (x ∷ xs) u h = (omega (arith, u, h.0), All-below m n xs u h.1)

pub below-unseen : (m : ℕ) (xs : List ℕ) → All (λ i. i < m) xs → contains m xs ≡ false
below-unseen m [] h = refl
below-unseen m (x ∷ xs) h = ground (arith, h.0, below-unseen m xs h.1)

length-snoc : (xs : List ℕ) (x : ℕ) → length (xs ++ (x ∷ [])) ≡ suc (length xs)
length-snoc xs x = omega (arith, length-append xs (x ∷ []))

opened_number :
    (first id : ℕ) (o ids : List ℕ)
    → (o ≡ stream_ids first (length o)) × (id ≡ first + 4 * length o) × All (λ i. i < id) ids
    → (o ++ (id ∷ []) ≡ stream_ids first (length (o ++ (id ∷ []))))
      × (id + 4 ≡ first + 4 * length (o ++ (id ∷ [])))
      × All (λ i. i < id + 4) (add id ids)
unfolding add
opened_number first id o ids h =
    let grown = length-snoc o id in
    (
      rw grown cc,
      omega (arith, grown, h.1),
      rw (below-unseen id ids h.2) (omega arith, All-below id (id + 4) ids (omega arith) h.2),
    )

pub Numbered-Stable : {C : Type 0} (first : ℕ) → Stable {C = C} (Numbered first)
Numbered-Stable first = record {
  conn_stable = λ o a c s h. h;
  mediator_stable = λ o a m s h. h;
  ping_stable = λ o a t s h. h;
  queue_stable = λ o a ids s h. h;
  half_closed_stable = λ o a m s h. h;
  discard_stable = λ o a id s h. (
    h.0,
    h.1,
    All-discard (λ i. i < s.state.lastest_outgoing_stream_id) id
        s.state.register_outgoing_stream_ids h.2,
  );
  incoming_stable = λ o a id s u h. h;
  open_stable = λ o a s h.
      opened_number first s.state.lastest_outgoing_stream_id o s.state.register_outgoing_stream_ids
        h;
  accept_stable = λ o a id ids s u h. h;
}

module _ {C I : Type 0} (Q : Quiche C I) where
  -- On a connection whose streams are then all of the peer, `accept` gives no stream id twice,
  -- whatever the calls and their order.
  pub accept_once :
      (c : C) (ping first now : ℕ)
      → Nodup (Q.readable c)
      → All (λ id. id % 2 ≢ first % 2) (Q.readable c)
      → (calls : List Call) → Nodup (run Q calls (start (new Q c ping first now))).accepted
  unfolding new
  accept_once c ping first now u v calls =
      let s = start (new Q c ping first now) in
      let s' = run Q calls s in
      Nodup-prefix s'.accepted s'.conn.state.incoming
        (run-P Q Seen-Stable calls s (u, initial-registered first (Q.readable c) v)).0

  -- Whatever the calls and their order, the streams that `open_stream` gives are numbered from the
  -- first id of the connection in steps of 4.
  pub open_stream_ids :
      (c : C) (ping first now : ℕ) (calls : List Call)
      → let s = run Q calls (start (new Q c ping first now)) in
        s.opened ≡ stream_ids first (length s.opened)
  unfolding new
  open_stream_ids c ping first now calls =
      (run-P Q (Numbered-Stable first) calls (start (new Q c ping first now))
        (refl, omega arith, tt)).0
