-- ===== src/Lockfree/Queue.antt =====
-- crates/lockfree/src/queue.rs: `Queue`, shared by threads, one atomic access at a time. The indices
-- are numbers without a bound (a `usize` wraps after 2^64 pushes).
pub mod Invariant
pub mod Present
pub mod Fifo
pub mod Refinement
use hala_rs.Base.{
  ℕ, ◌+◌, ◌-◌, ◌≤◌, ◌<◌, ◌≡◌, ◌≢◌, Bool, Option, none, some, List, [], ◌∷◌, ◌++◌, update,
}

-- The fields of `Queue`, with `slots` for the map from indices to values. The last field is no part
-- of the code: the pushed values in the order of their `fetch_add`.
pub record Queue (A : Type 0) : Type 0 where
  pub head : ℕ
  pub tail : ℕ
  pub slots : ℕ → Option A
  pub order : List A

abbrev pub new : (A : Type 0) → Queue A
new A = record { head = 0; tail = 0; slots = λ _. none; order = [] }

-- Where a thread stands, with the locals that are live there.
pub data Pc (A : Type 0) : Type 0 where
  idle : Pc A
  inserting : (offset : ℕ) (value : A) → Pc A  -- `push`, behind the `fetch_add`
  popping : Pc A  -- the head of the loop of `pop`
  loaded_head : (header : ℕ) → Pc A
  loaded_tail : (header tail : ℕ) → Pc A
  removing : (index : ℕ) → Pc A  -- the loop of `spin_pop_by_offset`
  returning : (result : Option A) → Pc A
  measuring : (tail : ℕ) → Pc A  -- `len`, between its loads
  measured : (len : ℕ) → Pc A
  overflowed : Pc A

module _ {A : Type 0} where
  -- One access of one thread.
  pub data Move (q : Queue A) : Pc A → Queue A → Pc A → Type 0 where
    fetch_add :
        (v : A)
        → Move q idle
            (record q { tail = q.tail + 1; order = q.order ++ (v ∷ []) })
            (inserting q.tail v)
    insert :
        {i : ℕ} {v : A}
        → Move q (inserting i v) (record q { slots = update q.slots i (some v) }) idle
    call_pop : Move q idle q popping
    load_head : Move q popping q (loaded_head q.head)
    load_tail : {h : ℕ} → Move q (loaded_head h) q (loaded_tail h q.tail)
    empty : {h t : ℕ} → h ≡ t → Move q (loaded_tail h t) q (returning none)
    exchange :
        {h t : ℕ}
        → h ≢ t
        → q.head ≡ h
        → Move q (loaded_tail h t) (record q { head = h + 1 }) (removing h)
    exchange_fails : {h t : ℕ} → h ≢ t → q.head ≢ h → Move q (loaded_tail h t) q popping
    remove :
        {i : ℕ} {v : A}
        → q.slots i ≡ some v
        → Move q (removing i) (record q { slots = update q.slots i none }) (returning (some v))
    remove_fails : {i : ℕ} → q.slots i ≡ none → Move q (removing i) q (removing i)
    return : {r : Option A} → Move q (returning r) q idle
    load_len : Move q idle q (measuring q.tail)
    measure : {t : ℕ} → q.head ≤ t → Move q (measuring t) q (measured (t - q.head))
    -- The difference of two `usize` overflows.
    measure_overflows : {t : ℕ} → t < q.head → Move q (measuring t) q overflowed
    return_len : {n : ℕ} → Move q (measured n) q idle

-- Any number of threads over one queue.
pub record System (A : Type 0) : Type 0 where
  pub queue : Queue A
  pub pc : ℕ → Pc A

abbrev pub init : (A : Type 0) → System A
init A = record { queue = new A; pc = λ _. idle }

pub data Step {A : Type 0} (s : System A) : System A → Type 0 where
  run :
      (t : ℕ) {q : Queue A} {p : Pc A}
      → Move s.queue (s.pc t) q p
      → Step s (record { queue = q; pc = update s.pc t p })

pub data Reach {A : Type 0} : System A → Type 0 where
  start : Reach (init A)
  later : {s u : System A} → Reach s → Step s u → Reach u
