-- ===== src/Future/Batching/Polling.antt =====
-- One thread at a time polls the futures of crates/future/src/batching.rs, and a call of `poll` that
-- ends early on a closed batcher leaves `await_counter` set.
use hala_rs.Base.{
  ℕ, ◌≤◌, ◌<◌, ◌≡◌, ◌⊎◌, inl, inr, Bool, true, false, refl, none, arith, update, Bool-cases, ◌==◌,
}
use hala_rs.Future.Batching.{
  FutureBatcher, Pc, checking, adding, popping, popped, removing, polling, storing, clearing,
  clearing_exchange, releasing, finishing, ready, Move, enter, closed_first, closed_popped,
  closed_last, System, Step, run, Reach, start, later,
}

module _ {F R : Type 0} where
  -- The thread is between the `fetch_add` and the `fetch_sub` of `poll`.
  abbrev pub polls : Pc F R → Bool
  polls checking = true
  polls adding = true
  polls (popping w) = true
  polls (popped w i) = true
  polls (removing w i) = true
  polls (polling w i f) = true
  polls (storing w i f) = true
  polls (clearing r) = true
  polls (clearing_exchange w r) = true
  polls (releasing r) = true
  polls (finishing w) = true
  polls _ = false

  pub record Inv (b : FutureBatcher F) (pc : ℕ → Pc F R) : Type 0 where
    pub busy : (t : ℕ) → polls (pc t) ≡ true → 0 < b.await_counter
    pub alone : (t u : ℕ) → polls (pc t) ≡ true → polls (pc u) ≡ true → t ≡ u

  -- A move goes on as it was, enters `poll` or leaves it.
  Move-turn :
      {b b' : FutureBatcher F} {p p' : Pc F R}
      → Move b p b' p'
      → ((polls p' ≡ polls p) × (b.await_counter ≤ b'.await_counter))
        ⊎ (((b.await_counter ≡ 0) × (0 < b'.await_counter))
            ⊎ ((polls p ≡ true) × (polls p' ≡ false)))
  Move-turn (enter e) = inr (inl (e, omega arith))
  Move-turn mv = ground arith

  module _ {b : FutureBatcher F} {pc : ℕ → Pc F R} (inv : Inv b pc) (t : ℕ) where
    open inv use {busy, alone}

    Move-busy :
        {p' : Pc F R} {b' : FutureBatcher F}
        → Move b (pc t) b' p'
        → (u : ℕ) → polls (update pc t p' u) ≡ true
        → 0 < b'.await_counter
    Move-busy mv u e = ground (arith, Move-turn mv, busy u, busy t, alone t u)

    -- Nobody polls beside another thread that does.
    Move-excluded :
        {p' : Pc F R} {b' : FutureBatcher F}
        → Move b (pc t) b' p'
        → (u : ℕ) → (t == u) ≡ false
        → polls (pc u) ≡ true
        → polls p' ≡ false
    Move-excluded mv u d e = ground (arith, Move-turn mv, busy u, alone t u)

    Move-alone :
        {p' : Pc F R} {b' : FutureBatcher F}
        → Move b (pc t) b' p'
        → (u v : ℕ) → polls (update pc t p' u) ≡ true
        → polls (update pc t p' v) ≡ true
        → u ≡ v
    Move-alone mv u v e f = elim (Bool-cases (t == u)) [
      | inl s ↦ ground (arith, e, f, s, Move-excluded mv v)
      | inr d ↦ ground (arith, e, f, d, Move-excluded mv u, alone u v)
    ]

    pub Move-Inv :
        {p' : Pc F R} {b' : FutureBatcher F} → Move b (pc t) b' p' → Inv b' (update pc t p')
    Move-Inv mv = record { busy = Move-busy mv; alone = Move-alone mv }

  pub Reach-Inv : {s : System F R} → Reach s → Inv s.batch s.pc
  Reach-Inv start = record { busy = λ t e. cc; alone = λ t u e f. cc }
  Reach-Inv (later r (run t mv)) = Move-Inv (Reach-Inv r) t mv

  -- Nobody polls, and nobody can.
  pub record Locked (b : FutureBatcher F) (pc : ℕ → Pc F R) : Type 0 where
    pub counted : 0 < b.await_counter
    pub nobody : (t : ℕ) → polls (pc t) ≡ false

  Move-Locked :
      {b b' : FutureBatcher F} {pc : ℕ → Pc F R} {p' : Pc F R} (t : ℕ)
      → Move b (pc t) b' p'
      → Locked b pc
      → Locked b' (update pc t p')
  Move-Locked t mv l = record {
    counted = ground (arith, Move-turn mv, l.counted, l.nobody t);
    nobody = λ u. ground (arith, Move-turn mv, l.counted, l.nobody t, l.nobody u);
  }

  -- Any number of further steps.
  pub data Steps (s : System F R) : System F R → Type 0 where
    stay : Steps s s
    more : {u v : System F R} → Steps s u → Step u v → Steps s v

  Steps-Locked : {s u : System F R} → Steps s u → Locked s.batch s.pc → Locked u.batch u.pc
  Steps-Locked stay l = l
  Steps-Locked (more r (run t mv)) l = Move-Locked t mv (Steps-Locked r l)

  -- The early exits of `poll` on a closed batcher.
  abbrev pub may_exit : Pc F R → Bool
  may_exit checking = true
  may_exit (popped w i) = true
  may_exit _ = false

  exit-Locked :
      {b b' : FutureBatcher F} {pc : ℕ → Pc F R} {p : Pc F R} (t : ℕ)
      → Inv b pc
      → Move b p b' (ready none)
      → pc t ≡ p
      → may_exit p ≡ true
      → Locked b' (update pc t (ready none))
  exit-Locked t inv (closed_first e) at m = record {
    counted = ground (arith, inv.busy t);
    nobody = λ u. ground (arith, inv.alone t u);
  }
  exit-Locked t inv (closed_popped e) at m = record {
    counted = ground (arith, inv.busy t);
    nobody = λ u. ground (arith, inv.alone t u);
  }
  exit-Locked t inv (closed_last e) at m = cc

-- Under every interleaving, one thread at most stands between the `fetch_add` and the `fetch_sub` of
-- `poll`, so no future is polled by two threads, and the counter is set while one does.
pub one_poller :
    {F R : Type 0} {s : System F R}
    → Reach s
    → (t : ℕ) → polls (s.pc t) ≡ true
    → (0 < s.batch.await_counter) × ((u : ℕ) → polls (s.pc u) ≡ true → t ≡ u)
one_poller r t e = ((Reach-Inv r).busy t e, λ u f. (Reach-Inv r).alone t u e f)

-- When a call of `poll` returns `Ready(None)` from its first check of the closed flag, or from that
-- in the loop, `await_counter` stays set: in every state reached from there, no access of any thread
-- gets a call of `poll` past its assertion.
pub early_exit_locks :
    {F R : Type 0} {s u : System F R} {b : FutureBatcher F}
    → Reach s
    → (t : ℕ) → may_exit (s.pc t) ≡ true
    → Move s.batch (s.pc t) b (ready none)
    → Steps (record { batch = b; pc = update s.pc t (ready none) }) u
    → (0 < u.batch.await_counter)
      × ((v : ℕ) (c : FutureBatcher F) (p : Pc F R) → Move u.batch (u.pc v) c p → polls p ≡ false)
early_exit_locks r t m mv st =
    let l = Steps-Locked st (exit-Locked t (Reach-Inv r) mv refl m) in
    (l.counted, λ v c p mv'. ground (arith, Move-turn mv', l.counted, l.nobody v))
