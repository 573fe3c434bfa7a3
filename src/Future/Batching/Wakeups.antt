-- ===== src/Future/Batching/Wakeups.antt =====
-- No wake-up of crates/future/src/batching.rs is lost.
use hala_rs.Base.{
  ℕ, ◌≡◌, ◌⊎◌, inl, inr, Bool, true, false, refl, Option, some, none, [], arith, update, Bool-cases,
  Option-cases, ◌==◌, ==_self, ==_iff, sym, ap,
}
use hala_rs.Base.Sets.{contains}
use hala_rs.Future.Batching.{
  FutureBatcher, Pc, waking, exchanging, calling, popping, popped, removing, polling, storing,
  finishing, last_check, pending, Move, queue, load_null, take, call, close, add_waker, pop, clear,
  pop_none, open_last, leave, System, run, Reach, start, later,
}

module _ {F R : Type 0} where
  -- The box that a call of `poll` has made and still relies on.
  abbrev pub box : Pc F R → Option ℕ
  box (popping w) = some w
  box (popped w i) = some w
  box (removing w i) = some w
  box (polling w i f) = some w
  box (storing w i f) = some w
  box (finishing w) = some w
  box (last_check w) = some w
  box (pending w) = some w
  box _ = none

  -- The thread is about to take the registered waker and to call it.
  abbrev pub alerts : Pc F R → Bool
  alerts waking = true
  alerts (exchanging w) = true
  alerts _ = false

  abbrev pub Alerted : (ℕ → Pc F R) → Type 0
  Alerted pc = (u : ℕ) × (alerts (pc u) ≡ true)

  -- The waker in the box was called, is about to be called, or was dropped for that of another call of
  -- `poll` or with the result of its own.
  abbrev pub Spent : FutureBatcher F → (ℕ → Pc F R) → ℕ → Type 0
  Spent b pc w =
      (contains w b.woken ≡ true) ⊎ ((contains w b.dropped ≡ true) ⊎ ((u : ℕ) × (pc u ≡ calling w)))

  -- What a call of `poll` has seen when it gives up, as long as nobody is about to wake it.
  abbrev pub Quiet : FutureBatcher F → Pc F R → Type 0
  Quiet b (finishing w) = b.wakeup_futures ≡ []
  Quiet b (last_check w) = b.wakeup_futures ≡ []
  Quiet b (pending w) = (b.wakeup_futures ≡ []) × (b.closed ≡ false)
  Quiet b _ = Unit

  abbrev pub Cared : FutureBatcher F → (ℕ → Pc F R) → Pc F R → ℕ → Type 0
  Cared b pc p w = Spent b pc w ⊎ ((b.raw_waker ≡ some w) × (Quiet b p ⊎ Alerted pc))

  Move-woken :
      {b b' : FutureBatcher F} {p p' : Pc F R}
      → Move b p b' p'
      → (w : ℕ) → contains w b.woken ≡ true
      → contains w b'.woken ≡ true
  Move-woken call w e = ground (arith, e)
  Move-woken mv w e = e

  Move-dropped :
      {b b' : FutureBatcher F} {p p' : Pc F R}
      → Move b p b' p'
      → (w : ℕ) → contains w b.dropped ≡ true
      → contains w b'.dropped ≡ true
  Move-dropped {b = b} add_waker w e = elim (Option-cases b.raw_waker) [
    | inl f ↦ rw f e
    | inr (v, f) ↦ rw f (ground (arith, e))
  ]
  Move-dropped (clear f) w e = ground (arith, e)
  Move-dropped mv w e = e

  Move-called :
      {b b' : FutureBatcher F} {p p' : Pc F R}
      → Move b p b' p'
      → (w : ℕ) → p ≡ calling w
      → contains w b'.woken ≡ true
  Move-called call w e = ground (arith, e)
  Move-called mv w e = absurd (cc)

  -- A registered waker stays, or is taken to be called, or is dropped.
  Move-raw :
      {b b' : FutureBatcher F} {p p' : Pc F R}
      → Move b p b' p'
      → (w : ℕ) → b.raw_waker ≡ some w
      → (b'.raw_waker ≡ some w) ⊎ ((p' ≡ calling w) ⊎ (contains w b'.dropped ≡ true))
  Move-raw (take f) w e = ground (arith, e)
  Move-raw add_waker w e = inr (inr (rw e (ground arith)))
  Move-raw (clear f) w e = ground (arith, e)
  Move-raw mv w e = inl e

  -- Who is about to take a waker that stays registered still is.
  Move-alerts :
      {b b' : FutureBatcher F} {p p' : Pc F R}
      → Move b p b' p'
      → (w : ℕ) → b.raw_waker ≡ some w
      → b'.raw_waker ≡ some w
      → alerts p ≡ true
      → alerts p' ≡ true
  Move-alerts (load_null g) w e f h = cc
  Move-alerts (take g) w e f h = cc
  Move-alerts mv w e f h = ground (arith, h)

  -- A queue that was empty and a flag that was unset stay so, or the thread is about to wake.
  Move-empty :
      {b b' : FutureBatcher F} {p p' : Pc F R}
      → Move b p b' p'
      → b.wakeup_futures ≡ []
      → (b'.wakeup_futures ≡ []) ⊎ (alerts p' ≡ true)
  Move-empty queue e = inr refl
  Move-empty (pop f) e = cc
  Move-empty mv e = inl e

  Move-open :
      {b b' : FutureBatcher F} {p p' : Pc F R}
      → Move b p b' p'
      → b.closed ≡ false
      → (b'.closed ≡ false) ⊎ (alerts p' ≡ true)
  Move-open (close f) e = inr refl
  Move-open mv e = inl e

  Move-Quiet :
      {b b' : FutureBatcher F} {p p' : Pc F R} (r : Pc F R)
      → Move b p b' p'
      → Quiet b r
      → Quiet b' r ⊎ (alerts p' ≡ true)
  Move-Quiet (finishing w) mv h = Move-empty mv h
  Move-Quiet (last_check w) mv h = Move-empty mv h
  Move-Quiet (pending w) mv h = ground (arith, Move-empty mv h.0, Move-open mv h.1)
  Move-Quiet r mv h = inl h

  -- The thread that moves keeps its box and sees what it needs, or has made the box.
  Move-own :
      {b b' : FutureBatcher F} {p p' : Pc F R}
      → Move b p b' p'
      → (w : ℕ) → box p' ≡ some w
      → ((b'.raw_waker ≡ some w) × Quiet b' p') ⊎ ((box p ≡ some w) × (Quiet b p → Quiet b' p'))
  Move-own add_waker w e = inl (e, tt)
  Move-own (pop_none f) w e = inr (e, λ h. f)
  Move-own (leave f) w e = inr (e, λ h. h)
  Move-own (open_last f) w e = inr (e, λ h. (h, f))
  Move-own mv w e = ground (arith, e)

  module _ {b b' : FutureBatcher F} (pc : ℕ → Pc F R) {p' : Pc F R} (t : ℕ)
      (mv : Move b (pc t) b' p') where
    Move-Spent : (w : ℕ) → Spent b pc w → Spent b' (update pc t p') w
    Move-Spent w (inl e) = inl (Move-woken mv w e)
    Move-Spent w (inr (inl e)) = inr (inl (Move-dropped mv w e))
    Move-Spent w (inr (inr (u, e))) = elim (Bool-cases (t == u)) [
      | inl s ↦ inl (Move-called mv w (rw (sym ((==_iff t u).0 s)) at e))
      | inr d ↦ inr (inr (u, rw d e))
    ]

    self_alerts : alerts p' ≡ true → Alerted (update pc t p')
    self_alerts e = (t, rw (==_self t) e)

    Move-Alerted :
        (w : ℕ)
        → b.raw_waker ≡ some w
        → b'.raw_waker ≡ some w
        → Alerted pc
        → Alerted (update pc t p')
    Move-Alerted w e f (u, g) = elim (Bool-cases (t == u)) [
      | inl s ↦ self_alerts (Move-alerts mv w e f (rw (sym ((==_iff t u).0 s)) at g))
      | inr d ↦ (u, rw d g)
    ]

    -- A registered waker, with what the call that made its box has seen carried over the move.
    Move-registered :
        (w : ℕ) (q : Type 0)
        → b.raw_waker ≡ some w
        → (q ⊎ (alerts p' ≡ true)) ⊎ Alerted pc
        → Spent b' (update pc t p') w ⊎ ((b'.raw_waker ≡ some w) × (q ⊎ Alerted (update pc t p')))
    Move-registered w q e h = elim (Move-raw mv w e) [
      | inr (inl c) ↦ inl (inr (inr (t, rw (==_self t) c)))
      | inr (inr d) ↦ inl (inr (inl d))
      | inl f ↦ inr (
        f,
        elim h [
          | inl (inl k) ↦ inl k
          | inl (inr a) ↦ inr (self_alerts a)
          | inr a ↦ inr (Move-Alerted w e f a)
        ],
      )
    ]

    Cared-carry :
        (w : ℕ) (r r' : Pc F R)
        → (Quiet b r → Quiet b' r' ⊎ (alerts p' ≡ true))
        → Cared b pc r w
        → Cared b' (update pc t p') r' w
    Cared-carry w r r' k (inl spent) = inl (Move-Spent w spent)
    Cared-carry w r r' k (inr (e, inl q)) = Move-registered w (Quiet b' r') e (inl (k q))
    Cared-carry w r r' k (inr (e, inr a)) = Move-registered w (Quiet b' r') e (inr a)

    Move-Cared :
        (h : (u w : ℕ) → box (pc u) ≡ some w → Cared b pc (pc u) w) (u w : ℕ)
        → box (update pc t p' u) ≡ some w
        → Cared b' (update pc t p') (update pc t p' u) w
    Move-Cared h u w e = elim (Bool-cases (t == u)) [
      | inl s ↦ rw s (elim (Move-own mv w (rw s at e)) [
        | inl (f, q) ↦ inr (f, inl q)
        | inr (f, k) ↦ Cared-carry w (pc t) p' (λ q. inl (k q)) (h t w f)
      ])
      | inr d ↦
          let f : box (pc u) ≡ some w = rw d at e in
          rw d (Cared-carry w (pc u) (pc u) (Move-Quiet (pc u) mv) (h u w f))
    ]

  Reach-Cared :
      {s : System F R} → Reach s → (t w : ℕ) → box (s.pc t) ≡ some w → Cared s.batch s.pc (s.pc t) w
  Reach-Cared start t w e = cc
  Reach-Cared (later {s = s} r (run t mv)) u w e = Move-Cared s.pc t mv (Reach-Cared r) u w e

-- No wake-up is lost: under every interleaving, while a call of `poll` has returned `Pending`, the
-- waker that it registered was called or is about to be, or was dropped by another call of `poll`;
-- or it is registered, and then the queue of the woken futures is empty and the batcher open, or a
-- thread is about to take the waker and to call it.
pub pending_is_woken :
    {F R : Type 0} {s : System F R}
    → Reach s
    → (t w : ℕ) → s.pc t ≡ pending w
    → Spent s.batch s.pc w
      ⊎ ((s.batch.raw_waker ≡ some w)
          × (((s.batch.wakeup_futures ≡ []) × (s.batch.closed ≡ false)) ⊎ Alerted s.pc))
pending_is_woken r t w e = rw e at (Reach-Cared r t w (ap box e))
