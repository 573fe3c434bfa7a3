-- ===== src/Lockfree/TimeWheel/Tended.antt =====
-- No timer of crates/lockfree/src/timewheel.rs is left behind: a bucket that still holds timers is
-- not yet due, or a call is on its way to it.
use hala_rs.Base.{
  ℕ, ◌≤◌, ◌<◌, ◌≡◌, ◌≢◌, ◌⊎◌, inl, inr, ap, some, List, arith, update, Bool-cases, ◌==◌, ==_iff,
  sym,
}
use hala_rs.Lockfree.TimeWheel.{
  Timer, HashedTimeWheel, Pc, pushed, removing_late, rechecking, rechecked, updating, collecting,
  Move, push, exchange, late_removes, recheck_removes, recheck_misses, recheck_passes, skip,
  update_succeeds, finish, collect, System, run, elapse, Reach, start, later,
}

module _ {A : Type 0} where
  -- The thread is a call of `new_timer` that has yet to check the tick, or one of `next_tick` with
  -- the tick ahead in its loop.
  abbrev pub Tends : ℕ → Pc A → Type 0
  Tends i (pushed j) = j ≡ i
  Tends i (removing_late j) = j ≡ i
  Tends i (rechecking j) = j ≡ i
  Tends i (rechecked j c) = j ≡ i
  Tends i (updating j c) = (j ≡ i) × (c ≤ j)
  Tends i (collecting j n acc) = (j ≤ i) × (i < n)
  Tends i _ = ⊥

  abbrev pub Tended : HashedTimeWheel A → (ℕ → Pc A) → ℕ → Type 0
  Tended w pc i = (w.ticks ≤ i) ⊎ ((t : ℕ) × Tends i (pc t))

  -- A bucket that holds timers behind a move held some before, or the thread that moved tends it.
  Move-holds :
      {w w' : HashedTimeWheel A} {p p' : Pc A}
      → Move w p w' p'
      → (i : ℕ) {xs : List (Timer A)} → w'.timers i ≡ some xs
      → ((ys : List (Timer A)) × (w.timers i ≡ some ys)) ⊎ Tends i p'
  Move-holds {w = w} (push {i = j}) i e = elim (Bool-cases (j == i)) [
    | inl s ↦ inr (ground arith)
    | inr s ↦ inl (_, rw s at e)
  ]
  Move-holds (late_removes f) i {xs = xs} e = inl (xs, ground (arith, e))
  Move-holds (recheck_removes l f) i {xs = xs} e = inl (xs, ground (arith, e))
  Move-holds (collect l f) i {xs = xs} e = inl (xs, ground (arith, e))
  Move-holds mv i e = inl (_, e)

  -- A thread that tends a bucket goes on to tend it, empties it or finds that it is not due.
  Move-Tends :
      {w w' : HashedTimeWheel A} {p p' : Pc A}
      → Move w p w' p'
      → (i : ℕ) {xs : List (Timer A)} → w'.timers i ≡ some xs
      → Tends i p
      → (w'.ticks ≤ i) ⊎ Tends i p'
  Move-Tends (push) i e h = absurd h
  Move-Tends {w = w} (late_removes {i = j} f) i e h = absurd (ground (arith, ap w.timers h, e, h))
  Move-Tends {w = w} (recheck_misses {i = j} l f) i e h = absurd (cc (ap w.timers h))
  Move-Tends (recheck_passes l) i e h = inr (h, l)
  Move-Tends {w = w} (skip {i = j} l f) i e h =
      let ahead : j ≢ i = λ g. cc (ap w.timers g) in inr (ground (arith, ahead, h))
  Move-Tends (update_succeeds g) i e h = inl (omega (arith, g, h.0, h.1))
  Move-Tends (finish g) i e h = absurd (omega (arith, g, h.0, h.1))
  Move-Tends mv i e h = ground (arith, e, h)

  Move-due :
      {w w' : HashedTimeWheel A} {p p' : Pc A}
      → Move w p w' p'
      → (i : ℕ) → w.ticks ≤ i
      → (w'.ticks ≤ i) ⊎ Tends i p'
  Move-due (exchange {n = n} l e) i h = ground arith
  Move-due mv i h = inl h

  module _ {w w' : HashedTimeWheel A} (pc : ℕ → Pc A) {p' : Pc A} (t : ℕ)
      (mv : Move w (pc t) w' p') where
    Move-self : (i : ℕ) → (w'.ticks ≤ i) ⊎ Tends i p' → Tended w' (update pc t p') i
    Move-self i (inl l) = inl l
    Move-self i (inr k) = inr (t, ground arith)

    Move-other :
        (i : ℕ) {xs : List (Timer A)}
        → w'.timers i ≡ some xs
        → Tended w pc i
        → Tended w' (update pc t p') i
    Move-other i e (inl l) = Move-self i (Move-due mv i l)
    Move-other i e (inr (u, k)) = elim (Bool-cases (t == u)) [
      | inl s ↦ Move-self i (Move-Tends mv i e (rw (sym ((==_iff t u).0 s)) at k))
      | inr d ↦ inr (u, rw d k)
    ]

    Move-Tended :
        (i : ℕ) {xs : List (Timer A)}
        → w'.timers i ≡ some xs
        → ((ys : List (Timer A)) → w.timers i ≡ some ys → Tended w pc i)
        → Tended w' (update pc t p') i
    Move-Tended i e h = elim (Move-holds mv i e) [
      | inl (ys, f) ↦ Move-other i e (h ys f)
      | inr k ↦ Move-self i (inr k)
    ]

-- No timer is left behind: under every interleaving, a bucket that holds timers is not yet due, or a
-- call of `new_timer` has yet to check its tick, or a call of `next_tick` has it ahead in its loop.
pub timers_are_tended :
    {A : Type 0} {d : ℕ} {s : System A}
    → Reach d s
    → (i : ℕ) (xs : List (Timer A)) → s.wheel.timers i ≡ some xs
    → (s.wheel.ticks ≤ i) ⊎ ((t : ℕ) × Tends i (s.pc t))
timers_are_tended start i xs e = cc
timers_are_tended (later {s = s} r (run t mv)) i xs e =
    Move-Tended s.pc t mv i e (λ ys f. timers_are_tended r i ys f)
timers_are_tended (later r (elapse c l m)) i xs e = timers_are_tended r i xs e
