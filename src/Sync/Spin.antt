-- ===== src/Sync/Spin.antt =====
-- crates/sync/src/spin.rs: `SpinMutex` with its guards, shared by threads, one atomic access at a
-- time, in an interleaving of the threads.
pub mod Exclusion
use hala_rs.Base.{ℕ, ◌≡◌, ◌≢◌, Bool, true, false, update}

pub record SpinMutex (A : Type 0) : Type 0 where
  pub flag : Bool
  pub guard : ℕ
  pub value : A

abbrev pub new : {A : Type 0} → A → SpinMutex A
new v = record { flag = false; guard = 0; value = v }

-- Where a thread stands.
pub data Pc : Type 0 where
  idle : Pc
  trying : Pc  -- the `compare_exchange_weak` of `lock`
  waiting : Pc  -- the loop of `lockable`
  acquired : Pc  -- the flag is set, and the guard's address is to be stored
  holding : (ptr : ℕ) → Pc
  clearing : Pc  -- in `drop`, behind the exchange of the address
  panicked : Pc

module _ {A : Type 0} where
  -- One access of one thread. The weak exchange may fail on a free lock too.
  pub data Move (l : SpinMutex A) : Pc → SpinMutex A → Pc → Type 0 where
    call_lock : Move l idle l trying
    exchange : l.flag ≡ false → Move l trying (record l { flag = true }) acquired
    exchange_fails : Move l trying l waiting
    load_held : l.flag ≡ true → Move l waiting l waiting
    load_free : l.flag ≡ false → Move l waiting l trying
    try_exchange : l.flag ≡ false → Move l idle (record l { flag = true }) acquired
    try_fails : l.flag ≡ true → Move l idle l idle
    set_guard :
        (ptr : ℕ) → ptr ≢ 0 → l.guard ≡ 0 → Move l acquired (record l { guard = ptr }) (holding ptr)
    set_guard_panics : l.guard ≢ 0 → Move l acquired l panicked
    deref_mut : {ptr : ℕ} (v : A) → Move l (holding ptr) (record l { value = v }) (holding ptr)
    unset_guard : {ptr : ℕ} → l.guard ≡ ptr → Move l (holding ptr) (record l { guard = 0 }) clearing
    unset_guard_panics : {ptr : ℕ} → l.guard ≢ ptr → Move l (holding ptr) l panicked
    store : Move l clearing (record l { flag = false }) idle

-- Any number of threads over one lock.
pub record System (A : Type 0) : Type 0 where
  pub lock : SpinMutex A
  pub pc : ℕ → Pc

pub data Step {A : Type 0} (s : System A) : System A → Type 0 where
  run :
      (t : ℕ) {l : SpinMutex A} {p : Pc}
      → Move s.lock (s.pc t) l p
      → Step s (record { lock = l; pc = update s.pc t p })

pub data Reach {A : Type 0} (v : A) : System A → Type 0 where
  start : Reach v (record { lock = new v; pc = λ t. idle })
  later : {s u : System A} → Reach v s → Step s u → Reach v u
