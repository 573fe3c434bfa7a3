-- ===== src/Future/Batching.antt =====
-- crates/future/src/batching.rs: `FutureBatcher` and the future `Wait`, shared by threads, one atomic
-- access, one call of a map or one call of the queue at a time. The queue is its list of values, and
-- the wake of a future may come at any time, so also while the future is polled.
pub mod Polling
pub mod Wakeups
pub mod Kept
use hala_rs.Base.{
  ℕ, ◌+◌, ◌-◌, ◌≡◌, ◌≢◌, Bool, true, false, Option, none, some, List, [], ◌∷◌, ◌++◌, update,
}

-- The fields of `FutureBatcher`; `waker` names the box that `WakerHost` points to. The last four are
-- no part of the code: the number of boxes made, the boxes whose wakers were called or dropped, and
-- the ids of the futures that were ready.
pub record FutureBatcher (F : Type 0) : Type 0 where
  pub idgen : ℕ
  pub pending_futures : ℕ → Option F
  pub wakeup_futures : List ℕ
  pub raw_waker : Option ℕ
  pub await_counter : ℕ
  pub closed : Bool
  pub boxes : ℕ
  pub woken : List ℕ
  pub dropped : List ℕ
  pub finished : List ℕ

abbrev pub new : (F : Type 0) → FutureBatcher F
new F = record {
  idgen = 0;
  pending_futures = λ i. none;
  wakeup_futures = [];
  raw_waker = none;
  await_counter = 0;
  closed = false;
  boxes = 0;
  woken = [];
  dropped = [];
  finished = [];
}

-- Where a thread stands, with the locals that are live there. `box` is the one that this call of
-- `poll` has made.
pub data Pc (F R : Type 0) : Type 0 where
  idle : Pc F R
  inserting : (id : ℕ) (fut : F) → Pc F R  -- `push`
  queueing : (id : ℕ) → Pc F R  -- `push` or the wake of a future
  waking : Pc F R  -- the load of `remove_waker` in `WakerHost::wake`
  exchanging : (box : ℕ) → Pc F R
  calling : (box : ℕ) → Pc F R  -- the waker is taken and about to be called
  checking : Pc F R  -- `poll` behind its `fetch_add`
  adding : Pc F R
  popping : (box : ℕ) → Pc F R  -- the head of the loop
  popped : (box id : ℕ) → Pc F R
  removing : (box id : ℕ) → Pc F R
  polling : (box id : ℕ) (fut : F) → Pc F R
  storing : (box id : ℕ) (fut : F) → Pc F R
  clearing : (r : R) → Pc F R  -- the load of `remove_waker` behind a future that is ready
  clearing_exchange : (box : ℕ) (r : R) → Pc F R
  releasing : (r : R) → Pc F R
  finishing : (box : ℕ) → Pc F R  -- the `fetch_sub` behind the loop
  last_check : (box : ℕ) → Pc F R
  ready : (output : Option R) → Pc F R
  pending : (box : ℕ) → Pc F R  -- `Poll::Pending`, until the task polls again
  panicked : Pc F R

abbrev pub drop_waker : Option ℕ → List ℕ → List ℕ
drop_waker none xs = xs
drop_waker (some w) xs = w ∷ xs

module _ {F R : Type 0} where
  -- One access of one thread.
  pub data Move (b : FutureBatcher F) : Pc F R → FutureBatcher F → Pc F R → Type 0 where
    push : (f : F) → Move b idle (record b { idgen = b.idgen + 1 }) (inserting b.idgen f)
    insert :
        {i : ℕ} {f : F}
        → Move b
            (inserting i f)
            (record b { pending_futures = update b.pending_futures i (some f) })
            (queueing i)
    -- `batch_future_waker_wake` and `batch_future_waker_wake_by_ref`
    wake : (i : ℕ) → Move b idle b (queueing i)
    queue :
        {i : ℕ}
        → Move b (queueing i) (record b { wakeup_futures = b.wakeup_futures ++ (i ∷ []) }) waking
    load_null : b.raw_waker ≡ none → Move b waking b idle
    load_waker : {w : ℕ} → b.raw_waker ≡ some w → Move b waking b (exchanging w)
    take :
        {w : ℕ}
        → b.raw_waker ≡ some w
        → Move b (exchanging w) (record b { raw_waker = none }) (calling w)
    -- The exchange is weak, so it may fail on an equal pointer too.
    take_fails : {w : ℕ} → Move b (exchanging w) b waking
    call : {w : ℕ} → Move b (calling w) (record b { woken = w ∷ b.woken }) idle
    close : b.closed ≡ false → Move b idle (record b { closed = true }) waking
    close_again : b.closed ≡ true → Move b idle b idle
    enter :
        b.await_counter ≡ 0
        → Move b idle (record b { await_counter = b.await_counter + 1 }) checking
    enter_panics :
        b.await_counter ≢ 0
        → Move b idle (record b { await_counter = b.await_counter + 1 }) panicked
    closed_first : b.closed ≡ true → Move b checking b (ready none)
    open_first : b.closed ≡ false → Move b checking b adding
    add_waker :
        Move b adding
          (record b {
            raw_waker = some b.boxes;
            boxes = b.boxes + 1;
            dropped = drop_waker b.raw_waker b.dropped;
          })
          (popping b.boxes)
    pop :
        {w i : ℕ} {rest : List ℕ}
        → b.wakeup_futures ≡ i ∷ rest
        → Move b (popping w) (record b { wakeup_futures = rest }) (popped w i)
    pop_none : {w : ℕ} → b.wakeup_futures ≡ [] → Move b (popping w) b (finishing w)
    closed_popped : {w i : ℕ} → b.closed ≡ true → Move b (popped w i) b (ready none)
    open_popped : {w i : ℕ} → b.closed ≡ false → Move b (popped w i) b (removing w i)
    remove :
        {w i : ℕ} {f : F}
        → b.pending_futures i ≡ some f
        → Move b
            (removing w i)
            (record b { pending_futures = update b.pending_futures i none })
            (polling w i f)
    gone : {w i : ℕ} → b.pending_futures i ≡ none → Move b (removing w i) b (popping w)
    poll_pending : {w i : ℕ} {f : F} (f' : F) → Move b (polling w i f) b (storing w i f')
    poll_ready :
        {w i : ℕ} {f : F} (r : R)
        → Move b (polling w i f) (record b { finished = i ∷ b.finished }) (clearing r)
    store :
        {w i : ℕ} {f : F}
        → Move b
            (storing w i f)
            (record b { pending_futures = update b.pending_futures i (some f) })
            (popping w)
    clear_null : {r : R} → b.raw_waker ≡ none → Move b (clearing r) b (releasing r)
    clear_load :
        {w : ℕ} {r : R} → b.raw_waker ≡ some w → Move b (clearing r) b (clearing_exchange w r)
    clear :
        {w : ℕ} {r : R}
        → b.raw_waker ≡ some w
        → Move b
            (clearing_exchange w r)
            (record b { raw_waker = none; dropped = w ∷ b.dropped })
            (releasing r)
    clear_fails : {w : ℕ} {r : R} → Move b (clearing_exchange w r) b (clearing r)
    release :
        {r : R}
        → b.await_counter ≡ 1
        → Move b (releasing r) (record b { await_counter = 0 }) (ready (some r))
    release_panics :
        {r : R}
        → b.await_counter ≢ 1
        → Move b (releasing r) (record b { await_counter = b.await_counter - 1 }) panicked
    leave :
        {w : ℕ}
        → b.await_counter ≡ 1
        → Move b (finishing w) (record b { await_counter = 0 }) (last_check w)
    leave_panics :
        {w : ℕ}
        → b.await_counter ≢ 1
        → Move b (finishing w) (record b { await_counter = b.await_counter - 1 }) panicked
    closed_last : {w : ℕ} → b.closed ≡ true → Move b (last_check w) b (ready none)
    open_last : {w : ℕ} → b.closed ≡ false → Move b (last_check w) b (pending w)
    return : {r : Option R} → Move b (ready r) b idle
    poll_again : {w : ℕ} → Move b (pending w) b idle

-- Any number of threads over one batcher.
pub record System (F R : Type 0) : Type 0 where
  pub batch : FutureBatcher F
  pub pc : ℕ → Pc F R

abbrev pub init : (F R : Type 0) → System F R
init F R = record { batch = new F; pc = λ t. idle }

pub data Step {F R : Type 0} (s : System F R) : System F R → Type 0 where
  run :
      (t : ℕ) {b : FutureBatcher F} {p : Pc F R}
      → Move s.batch (s.pc t) b p
      → Step s (record { batch = b; pc = update s.pc t p })

pub data Reach {F R : Type 0} : System F R → Type 0 where
  start : Reach (init F R)
  later : {s u : System F R} → Reach s → Step s u → Reach u
