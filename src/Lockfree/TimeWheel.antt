-- ===== src/Lockfree/TimeWheel.antt =====
-- crates/lockfree/src/timewheel.rs: `HashedTimeWheel`, shared by threads, one atomic access or one
-- call of its `DashMap` at a time, with the clock moved by the environment. A run lasts less than
-- 2^64 microseconds, so the clock's ticks fit a `u64`; a deadline's may not.
pub mod Due
pub mod Tended
use hala_rs.Base.{
  ℕ, ◌+◌, ◌/◌, ◌%◌, ◌^◌, ◌≤◌, ◌<◌, ◌≡◌, ◌≢◌, Option, none, some, List, [], ◌∷◌, ◌++◌, update,
}

-- A `T` with the microseconds at which it is due; the code stores the `T` alone.
pub record Timer (A : Type 0) : Type 0 where
  pub value : A
  pub deadline : ℕ

-- The fields of `HashedTimeWheel`, with `clock` for `Instant::now() - self.start_instant` in
-- microseconds.
pub record HashedTimeWheel (A : Type 0) : Type 0 where
  pub timers : ℕ → Option (List (Timer A))
  pub ticks : ℕ
  pub clock : ℕ
  pub tick_duration : ℕ
  pub timer_count : ℕ

abbrev pub new : (A : Type 0) → ℕ → HashedTimeWheel A
new A d = record { timers = λ i. none; ticks = 0; clock = 0; tick_duration = d; timer_count = 0 }

-- The tick of an instant: the quotient of two `u128`, cast to `u64`.
unfoldable pub tick_of : ℕ → ℕ → ℕ
tick_of d micros = micros / d % 2 ^ 64

-- Where a thread stands, with the locals that are live there.
pub data Pc (A : Type 0) : Type 0 where
  idle : Pc A
  checking : (tick : ℕ) (x : Timer A) → Pc A  -- the first `fetch_update` of `new_timer`
  entering : (tick : ℕ) (x : Timer A) → Pc A  -- its `entry`
  pushed : (tick : ℕ) → Pc A  -- its `load`
  removing_late : (tick : ℕ) → Pc A
  rechecking : (tick : ℕ) → Pc A  -- the load of the second `fetch_update`
  rechecked : (tick current : ℕ) → Pc A  -- its closure
  updating : (tick current : ℕ) → Pc A  -- its exchange
  counting : (tick : ℕ) → Pc A
  created : (result : Option ℕ) → Pc A
  ticking : Pc A  -- the head of the loop of `next_tick`
  loaded : (current : ℕ) → Pc A
  comparing : (current now : ℕ) → Pc A
  collecting : (next end : ℕ) (timeout_timers : List (Timer A)) → Pc A
  ticked : (result : Option (List (Timer A))) → Pc A
  panicked : Pc A

abbrev pub bucket : {A : Type 0} → Option (List (Timer A)) → List (Timer A)
bucket none = []
bucket (some xs) = xs

module _ {A : Type 0} where
  abbrev set : HashedTimeWheel A → ℕ → Option (List (Timer A)) → HashedTimeWheel A
  set w i b = record w { timers = update w.timers i b }

  -- One access of one thread.
  pub data Move (w : HashedTimeWheel A) : Pc A → HashedTimeWheel A → Pc A → Type 0 where
    call_new_timer :
        (v : A) (duration : ℕ)
        → w.tick_duration ≢ 0
        → Move w idle w (
            checking
              (tick_of w.tick_duration (w.clock + duration))
              (record { value = v; deadline = w.clock + duration }))
    call_new_timer_panics : w.tick_duration ≡ 0 → Move w idle w panicked
    expired : {i : ℕ} {x : Timer A} → i < w.ticks → Move w (checking i x) w (created none)
    current : {i : ℕ} {x : Timer A} → w.ticks ≤ i → Move w (checking i x) w (entering i x)
    push :
        {i : ℕ} {x : Timer A}
        → Move w (entering i x) (set w i (some (bucket (w.timers i) ++ (x ∷ [])))) (pushed i)
    load_late : {i : ℕ} → i < w.ticks → Move w (pushed i) w (removing_late i)
    load_early : {i : ℕ} → w.ticks ≤ i → Move w (pushed i) w (rechecking i)
    late_removes :
        {i : ℕ} {xs : List (Timer A)}
        → w.timers i ≡ some xs
        → Move w (removing_late i) (set w i none) (created none)
    late_misses : {i : ℕ} → w.timers i ≡ none → Move w (removing_late i) w (rechecking i)
    recheck : {i : ℕ} → Move w (rechecking i) w (rechecked i w.ticks)
    recheck_removes :
        {i c : ℕ} {xs : List (Timer A)}
        → i < c
        → w.timers i ≡ some xs
        → Move w (rechecked i c) (set w i none) (created none)
    recheck_misses : {i c : ℕ} → i < c → w.timers i ≡ none → Move w (rechecked i c) w (updating i c)
    recheck_passes : {i c : ℕ} → c ≤ i → Move w (rechecked i c) w (updating i c)
    update_succeeds : {i c : ℕ} → w.ticks ≡ c → Move w (updating i c) w (counting i)
    -- The exchange is weak, so it may fail on an equal value too.
    update_fails : {i c : ℕ} → Move w (updating i c) w (rechecked i w.ticks)
    count :
        {i : ℕ}
        → Move w (counting i) (record w { timer_count = w.timer_count + 1 }) (created (some i))
    return_created : {r : Option ℕ} → Move w (created r) w idle
    call_next_tick : Move w idle w ticking
    load_ticks : Move w ticking w (loaded w.ticks)
    read_clock :
        {c : ℕ}
        → w.tick_duration ≢ 0
        → Move w (loaded c) w (comparing c (tick_of w.tick_duration w.clock))
    read_clock_panics : {c : ℕ} → w.tick_duration ≡ 0 → Move w (loaded c) w panicked
    assert_fails : {c n : ℕ} → n < c → Move w (comparing c n) w panicked
    same_tick : {c n : ℕ} → c ≡ n → Move w (comparing c n) w (ticked none)
    exchange :
        {c n : ℕ}
        → c < n
        → w.ticks ≡ c
        → Move w (comparing c n) (record w { ticks = n }) (collecting c n [])
    exchange_fails : {c n : ℕ} → c < n → w.ticks ≢ c → Move w (comparing c n) w ticking
    collect :
        {i n : ℕ} {acc xs : List (Timer A)}
        → i < n
        → w.timers i ≡ some xs
        → Move w (collecting i n acc) (set w i none) (collecting (i + 1) n (acc ++ xs))
    skip :
        {i n : ℕ} {acc : List (Timer A)}
        → i < n
        → w.timers i ≡ none
        → Move w (collecting i n acc) w (collecting (i + 1) n acc)
    finish :
        {i n : ℕ} {acc : List (Timer A)} → i ≡ n → Move w (collecting i n acc) w (ticked (some acc))
    return_ticked : {r : Option (List (Timer A))} → Move w (ticked r) w idle

-- Any number of threads over one wheel.
pub record System (A : Type 0) : Type 0 where
  pub wheel : HashedTimeWheel A
  pub pc : ℕ → Pc A

abbrev pub init : (A : Type 0) → ℕ → System A
init A d = record { wheel = new A d; pc = λ t. idle }

pub data Step {A : Type 0} (s : System A) : System A → Type 0 where
  run :
      (t : ℕ) {w : HashedTimeWheel A} {p : Pc A}
      → Move s.wheel (s.pc t) w p
      → Step s (record { wheel = w; pc = update s.pc t p })
  elapse :
      (clock : ℕ)
      → s.wheel.clock ≤ clock
      → clock < 2 ^ 64
      → Step s (record { wheel = record s.wheel { clock = clock }; pc = s.pc })

pub data Reach {A : Type 0} (d : ℕ) : System A → Type 0 where
  start : Reach d (init A d)
  later : {s u : System A} → Reach d s → Step s u → Reach d u
