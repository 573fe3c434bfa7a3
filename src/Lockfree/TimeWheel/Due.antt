-- ===== src/Lockfree/TimeWheel/Due.antt =====
-- The time wheel of crates/lockfree/src/timewheel.rs hands out timers whose tick is over, and its
-- assertion on the clock holds.
use hala_rs.Base.{
  sym, ◌∙◌, leb, ℕ, ◌/◌, ◌^◌, ◌≤◌, ◌<◌, ◌≡◌, ◌≢◌, refl, none, some, [], ◌∷◌, ◌++◌, List, arith,
  update, All, All-append, Bool-cases, ◌==◌, ==_iff, inl, inr, Option,
}
use hala_rs.Lockfree.TimeWheel.{
  Timer, HashedTimeWheel, tick_of, Pc, checking, entering, loaded, comparing, collecting, ticked,
  panicked, bucket, Move, call_new_timer, call_new_timer_panics, current, push, late_removes,
  recheck_removes, read_clock_panics, assert_fails, exchange, collect, skip, finish, System, init,
  Step, run, elapse, Reach, start, later,
}
use native.Mathlib.Nat.{div-le_self, div-mul-le_self, le-div_iff_mul-le}

tick_of_mono : (d a b : ℕ) → d ≢ 0 → a ≤ b → b < 2 ^ 64 → tick_of d a ≤ tick_of d b
unfolding tick_of
tick_of_mono d a b n h k =
    let pos : 0 < d = omega (arith, n) in
    let quotients : a / d ≤ b / d =
      (le-div_iff_mul-le pos).1 (omega (arith, h, div-mul-le_self a d)) in
    omega (arith, quotients, k, div-le_self b d)

module _ {A : Type 0} where
  -- The timers of a list have a tick before the given one.
  abbrev pub Before : ℕ → ℕ → List (Timer A) → Type 0
  Before d n = All (λ x. tick_of d x.deadline < n)

  abbrev pub At : ℕ → ℕ → List (Timer A) → Type 0
  At d i = All (λ x. tick_of d x.deadline ≡ i)

  -- What the locals of a thread say about the ticks of the wheel and of its clock.
  abbrev pub Knows : ℕ → ℕ → ℕ → Pc A → Type 0
  Knows d ticks now (checking i x) = tick_of d x.deadline ≡ i
  Knows d ticks now (entering i x) = tick_of d x.deadline ≡ i
  Knows d ticks now (loaded c) = c ≤ now
  Knows d ticks now (comparing c n) = (c ≤ n) × (n ≤ now)
  Knows d ticks now (collecting i n acc) = (i ≤ n) × (n ≤ ticks) × Before d n acc
  Knows d ticks now (ticked (some acc)) = Before d ticks acc
  Knows d ticks now panicked = d ≡ 0
  Knows d ticks now _ = Unit

  abbrev pub now : HashedTimeWheel A → ℕ
  now w = tick_of w.tick_duration w.clock

  pub record Inv (w : HashedTimeWheel A) (pc : ℕ → Pc A) : Type 0 where
    pub elapsed : w.ticks ≤ now w
    pub filed : (i : ℕ) → At w.tick_duration i (bucket (w.timers i))
    pub knows : (t : ℕ) → Knows w.tick_duration w.ticks (now w) (pc t)

  At-Before : (d i n : ℕ) (xs : List (Timer A)) → i < n → At d i xs → Before d n xs
  At-Before d i n [] h a = tt
  At-Before d i n (x ∷ xs) h a = (omega (arith, h, a.0), At-Before d i n xs h a.1)

  Before-mono : (d m n : ℕ) (xs : List (Timer A)) → m ≤ n → Before d m xs → Before d n xs
  Before-mono d m n [] h a = tt
  Before-mono d m n (x ∷ xs) h a = (omega (arith, h, a.0), Before-mono d m n xs h a.1)

  init-Inv : (d : ℕ) → Inv (init A d).wheel (init A d).pc
  init-Inv d = record { elapsed = omega arith; filed = λ i. tt; knows = λ t. tt }

  Move-elapsed :
      {w w' : HashedTimeWheel A} {p p' : Pc A}
      → Move w p w' p'
      → Knows w.tick_duration w.ticks (now w) p
      → w.ticks ≤ now w
      → w'.ticks ≤ now w'
  Move-elapsed (exchange l e) k h = k.1
  Move-elapsed mv k h = h

  At-update :
      (d i j : ℕ) (f : ℕ → Option (List (Timer A))) (b : Option (List (Timer A)))
      → At d i (bucket b)
      → At d j (bucket (f j))
      → At d j (bucket (update f i b j))
  At-update d i j f b h g = elim (Bool-cases (i == j)) [
    | inl e ↦ rw e (rw ((==_iff i j).0 e) at h)
    | inr e ↦ rw e g
  ]

  Move-filed :
      {w w' : HashedTimeWheel A} {p p' : Pc A}
      → Move w p w' p'
      → Knows w.tick_duration w.ticks (now w) p
      → ((i : ℕ) → At w.tick_duration i (bucket (w.timers i)))
      → (i : ℕ) → At w'.tick_duration i (bucket (w'.timers i))
  Move-filed {w = w} (push {i = i} {x = x}) k h j =
      At-update w.tick_duration i j w.timers (some (bucket (w.timers i) ++ (x ∷ [])))
        (All-append (λ y. tick_of w.tick_duration y.deadline ≡ i) (bucket (w.timers i)) (x ∷ [])
          (h i) (k, tt))
        (h j)
  Move-filed {w = w} (late_removes {i = i} e) k h j =
      At-update w.tick_duration i j w.timers none tt (h j)
  Move-filed {w = w} (recheck_removes {i = i} l e) k h j =
      At-update w.tick_duration i j w.timers none tt (h j)
  Move-filed {w = w} (collect {i = i} l e) k h j =
      At-update w.tick_duration i j w.timers none tt (h j)
  Move-filed mv k h j = h j

  -- What a thread knows stays true while the ticks grow.
  Knows-mono :
      (d ticks ticks' now now' : ℕ) (p : Pc A)
      → ticks ≤ ticks'
      → now ≤ now'
      → Knows d ticks now p
      → Knows d ticks' now' p
  Knows-mono d ticks ticks' now now' (loaded c) l m k = omega (arith, k, m)
  Knows-mono d ticks ticks' now now' (comparing c n) l m k = (k.0, omega (arith, k.1, m))
  Knows-mono d ticks ticks' now now' (collecting i n acc) l m k = (k.0, omega (arith, k.1, l), k.2)
  Knows-mono d ticks ticks' now now' (ticked (some acc)) l m k = Before-mono d ticks ticks' acc l k
  Knows-mono d ticks ticks' now now' p l m k = k

  -- What a thread knows when it has moved.
  Move-Knows :
      {w w' : HashedTimeWheel A} {p p' : Pc A}
      → Move w p w' p'
      → Knows w.tick_duration w.ticks (now w) p
      → w.ticks ≤ now w
      → ((i : ℕ) → At w.tick_duration i (bucket (w.timers i)))
      → Knows w'.tick_duration w'.ticks (now w') p'
  Move-Knows (call_new_timer v s n) k l h = refl
  Move-Knows (call_new_timer_panics z) k l h = z
  Move-Knows (read_clock_panics z) k l h = z
  Move-Knows (current m) k l h = k
  Move-Knows (exchange m e) k l h = (omega (arith, m), omega arith, tt)
  Move-Knows {w = w} (collect {i = i} {n = n} {acc = acc} {xs = xs} m e) k l h =
      let at : At w.tick_duration i xs = rw e at (h i) in
      (
        omega (arith, m),
        k.1,
        All-append (λ x. tick_of w.tick_duration x.deadline < n) acc xs k.2
            (At-Before w.tick_duration i n xs m at),
      )
  Move-Knows {w = w} (finish {n = n} {acc = acc} m) k l h =
      Before-mono w.tick_duration n w.ticks acc k.1 k.2
  Move-Knows (skip m e) k l h = (omega (arith, m), k.1, k.2)
  Move-Knows (assert_fails m) k l h = absurd (omega (arith, m, k.0))
  Move-Knows mv k l h = ground (arith, k)

  -- What another thread knows when one has moved.
  Move-others :
      {w w' : HashedTimeWheel A} {p p' : Pc A} (r : Pc A)
      → Move w p w' p'
      → Knows w.tick_duration w.ticks (now w) r
      → Knows w'.tick_duration w'.ticks (now w') r
  Move-others {w = w} r (exchange {n = n} l e) k =
      Knows-mono w.tick_duration w.ticks n (now w) (now w) r (omega (arith, l, e)) (omega arith) k
  Move-others r mv k = k

  Move-Inv :
      {w w' : HashedTimeWheel A} {pc : ℕ → Pc A} {p' : Pc A}
      → Inv w pc
      → (t : ℕ) → Move w (pc t) w' p'
      → Inv w' (update pc t p')
  Move-Inv {w = w} {w' = w'} {pc = pc} {p' = p'} inv t mv = record {
    elapsed = Move-elapsed mv (inv.knows t) inv.elapsed;
    filed = Move-filed mv (inv.knows t) inv.filed;
    knows = λ u. elim (Bool-cases (t == u)) [
      | inl e ↦ rw e (Move-Knows mv (inv.knows t) inv.elapsed inv.filed)
      | inr e ↦ rw e (Move-others (pc u) mv (inv.knows u))
    ];
  }

  Step-Inv :
      {s u : System A} → Step s u → Inv s.wheel s.pc → s.wheel.tick_duration ≢ 0 → Inv u.wheel u.pc
  Step-Inv (run t mv) inv n = Move-Inv inv t mv
  Step-Inv {s = s} (elapse c l m) inv n =
      let later_now : now s.wheel ≤ tick_of s.wheel.tick_duration c =
        tick_of_mono s.wheel.tick_duration s.wheel.clock c n l m in
      record {
        elapsed = omega (arith, inv.elapsed, later_now);
        filed = inv.filed;
        knows = λ u.
            Knows-mono s.wheel.tick_duration s.wheel.ticks s.wheel.ticks (now s.wheel)
              (tick_of s.wheel.tick_duration c) (s.pc u) (omega arith) later_now (inv.knows u);
      }

  Move-duration :
      {w w' : HashedTimeWheel A} {p p' : Pc A} → Move w p w' p' → w'.tick_duration ≡ w.tick_duration
  Move-duration (push) = refl
  Move-duration mv = refl

  Step-duration : {s u : System A} → Step s u → u.wheel.tick_duration ≡ s.wheel.tick_duration
  Step-duration (run t mv) = Move-duration mv
  Step-duration (elapse c l m) = refl

  Reach-duration : {d : ℕ} {s : System A} → Reach d s → s.wheel.tick_duration ≡ d
  Reach-duration start = refl
  Reach-duration (later r st) = Step-duration st ∙ Reach-duration r

  Reach-Inv : {d : ℕ} {s : System A} → d ≢ 0 → Reach d s → Inv s.wheel s.pc
  Reach-Inv {d = d} n start = init-Inv d
  Reach-Inv n (later r st) = Step-Inv st (Reach-Inv n r) (λ e. n (sym (Reach-duration r) ∙ e))

  overdue :
      (d clock : ℕ) (xs : List (Timer A))
      → d ≢ 0
      → Before d (tick_of d clock) xs
      → All (λ x. x.deadline < 2 ^ 64) xs
      → All (λ x. x.deadline < clock) xs
  overdue d clock [] n h b = tt
  overdue d clock (x ∷ xs) n h b = (
    elim (Bool-cases (leb clock x.deadline)) [
      | inl e ↦
          absurd (omega (arith, tick_of_mono d clock x.deadline n (ground (arith, e)) b.0, h.0))
      | inr e ↦ ground (arith, e)
    ],
    overdue d clock xs n h.1 b.1,
  )

-- No timer fires early and no call panics: with a tick of a microsecond at least, under every
-- interleaving, the timers that a call of `next_tick` is about to return, whose deadlines in
-- microseconds fit 64 bits, have deadlines that the clock has passed, and no thread has failed the
-- assertion on the clock or divided by zero.
pub fires_when_due :
    {A : Type 0} {d : ℕ} {s : System A}
    → d ≢ 0
    → Reach d s
    → (t : ℕ) (xs : List (Timer A)) → s.pc t ≡ ticked (some xs)
    → All (λ x. x.deadline < 2 ^ 64) xs
    → All (λ x. x.deadline < s.wheel.clock) xs × ((u : ℕ) → s.pc u ≢ panicked)
fires_when_due {d = d} {s = s} n r t xs e b =
    let inv = Reach-Inv n r in
    let same = Reach-duration r in
    let fired : Before d s.wheel.ticks xs = rw same at (rw e at (inv.knows t)) in
    let elapsed : s.wheel.ticks ≤ tick_of d s.wheel.clock = rw same at inv.elapsed in
    (
      overdue d s.wheel.clock xs n
          (Before-mono d s.wheel.ticks (tick_of d s.wheel.clock) xs elapsed fired) b,
      λ u f. n (sym same ∙ (rw f at (inv.knows u))),
    )
