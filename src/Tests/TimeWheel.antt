-- ===== src/Tests/TimeWheel.antt =====
-- The theorems on crates/lockfree/src/timewheel.rs in a run of two threads: thread 0 creates a timer
-- that is due at once, and thread 1 takes it a tick later.
use hala_rs.Base.{ℕ, ◌≤◌, ◌<◌, ◌≢◌, ◌⊎◌, refl, none, some, [], ◌∷◌, arith, update, All}
use hala_rs.Lockfree.TimeWheel.{
  Timer, HashedTimeWheel, tick_of, Pc, checking, entering, pushed, ticking, loaded, comparing,
  collecting, ticked, panicked, call_new_timer, current, push, call_next_tick, load_ticks,
  read_clock, exchange, collect, finish, System, init, run, elapse, Reach, start, later,
}
use hala_rs.Lockfree.TimeWheel.Due.{fires_when_due}
use hala_rs.Lockfree.TimeWheel.Tended.{timers_are_tended, Tends}

abbrev timer : Timer ℕ
timer = record { value = 7; deadline = 0 }

abbrev after : System ℕ → ℕ → HashedTimeWheel ℕ → Pc ℕ → System ℕ
after s t w p = record { wheel = w; pc = update s.pc t p }

abbrev filled : System ℕ
filled =
    let a = after (init ℕ 1) 0 (init ℕ 1).wheel (checking 0 timer) in
    let b = after a 0 a.wheel (entering 0 timer) in
    after b 0 (record b.wheel { timers = update b.wheel.timers 0 (some (timer ∷ [])) }) (pushed 0)

abbrev waited : System ℕ
waited = record { wheel = record filled.wheel { clock = 1 }; pc = filled.pc }

abbrev taking : System ℕ
taking =
    let a = after waited 1 waited.wheel ticking in
    let b = after a 1 a.wheel (loaded 0) in
    let c = after b 1 b.wheel (comparing 0 1) in
    after c 1 (record c.wheel { ticks = 1 }) (collecting 0 1 [])

abbrev taken : System ℕ
taken =
    let a =
      after taking 1 (record taking.wheel { timers = update taking.wheel.timers 0 none })
        (collecting 1 1 (timer ∷ [])) in
    after a 1 a.wheel (ticked (some (timer ∷ [])))

one_nonzero : ◌≢◌ {A = ℕ} 1 0
one_nonzero e = absurd (omega (arith, e))

filled-Reach : Reach 1 filled
unfolding tick_of
filled-Reach =
    later
      (later (later start (run 0 (call_new_timer 7 0 one_nonzero))) (run 0 (current (omega arith))))
      (run 0 push)

taking-Reach : Reach 1 taking
unfolding tick_of
taking-Reach =
    let waiting : Reach 1 waited = later filled-Reach (elapse 1 (omega arith) (omega arith)) in
    let asked = later (later waiting (run 1 call_next_tick)) (run 1 load_ticks) in
    later (later asked (run 1 (read_clock one_nonzero))) (run 1 (exchange (omega arith) refl))

taken-Reach : Reach 1 taken
taken-Reach = later (later taking-Reach (run 1 (collect (omega arith) refl))) (run 1 (finish refl))

fires_when_due_example : All (λ x. x.deadline < 1) (timer ∷ []) × ((u : ℕ) → taken.pc u ≢ panicked)
fires_when_due_example =
    fires_when_due one_nonzero taken-Reach 1 (timer ∷ []) refl (omega arith, tt)

timers_are_tended_example : (1 ≤ 0) ⊎ ((t : ℕ) × Tends 0 (taking.pc t))
timers_are_tended_example = timers_are_tended taking-Reach 0 (timer ∷ []) refl
