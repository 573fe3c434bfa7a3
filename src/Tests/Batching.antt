-- ===== src/Tests/Batching.antt =====
-- The theorems on crates/future/src/batching.rs in runs of two threads: thread 1 polls an empty
-- batcher, and thread 0 pushes a future or closes the batcher.
use hala_rs.Base.{ℕ, ◌<◌, ◌≡◌, ◌⊎◌, refl, true, false, some, none, [], ◌∷◌, arith, update}
use hala_rs.Future.Batching.{
  FutureBatcher, Pc, inserting, queueing, waking, checking, adding, popping, finishing, last_check,
  pending, ready, idle, Move, push, insert, queue, close, load_null, enter, closed_first,
  open_first, add_waker, pop_none, leave, open_last, System, init, run, Reach, start, later,
}
use hala_rs.Future.Batching.Polling.{polls, one_poller, early_exit_locks, stay}
use hala_rs.Future.Batching.Wakeups.{pending_is_woken, Spent, Alerted}
use hala_rs.Future.Batching.Kept.{no_future_lost, Kept}

abbrev after : System ℕ ℕ → ℕ → FutureBatcher ℕ → Pc ℕ ℕ → System ℕ ℕ
after s t b p = record { batch = b; pc = update s.pc t p }

abbrev entered : System ℕ ℕ
entered = let s = init ℕ ℕ in after s 1 (record s.batch { await_counter = 1 }) checking

abbrev parked : System ℕ ℕ
parked =
    let a = after entered 1 entered.batch adding in
    let b = after a 1 (record a.batch { raw_waker = some 0; boxes = 1 }) (popping 0) in
    let c = after b 1 b.batch (finishing 0) in
    let d = after c 1 (record c.batch { await_counter = 0 }) (last_check 0) in
    after d 1 d.batch (pending 0)

abbrev pushed : System ℕ ℕ
pushed =
    let a = after parked 0 (record parked.batch { idgen = 1 }) (inserting 0 5) in
    let b =
      after a 0 (record a.batch { pending_futures = update a.batch.pending_futures 0 (some 5) })
        (queueing 0) in
    after b 0 (record b.batch { wakeup_futures = 0 ∷ [] }) waking

entered-Reach : Reach entered
entered-Reach = later start (run 1 (enter refl))

parked-Reach : Reach parked
parked-Reach =
    let added = later (later entered-Reach (run 1 (open_first refl))) (run 1 add_waker) in
    later (later (later added (run 1 (pop_none refl))) (run 1 (leave refl)))
      (run 1 (open_last refl))

pushed-Reach : Reach pushed
pushed-Reach = later (later (later parked-Reach (run 0 (push 5))) (run 0 insert)) (run 0 queue)

one_poller_example :
    (0 < entered.batch.await_counter) × ((u : ℕ) → polls (entered.pc u) ≡ true → 1 ≡ u)
one_poller_example = one_poller entered-Reach 1 refl

pending_is_woken_example :
    Spent pushed.batch pushed.pc 0
    ⊎ ((pushed.batch.raw_waker ≡ some 0)
        × (((pushed.batch.wakeup_futures ≡ []) × (pushed.batch.closed ≡ false))
            ⊎ Alerted pushed.pc))
pending_is_woken_example = pending_is_woken pushed-Reach 1 0 refl

no_future_lost_example : Kept pushed.batch pushed.pc 0
no_future_lost_example = no_future_lost pushed-Reach 0 (omega arith)

abbrev closed : System ℕ ℕ
closed =
    let s = init ℕ ℕ in
    let a = after s 0 (record s.batch { closed = true }) waking in
    let b = after a 0 a.batch idle in after b 1 (record b.batch { await_counter = 1 }) checking

closed-Reach : Reach closed
closed-Reach =
    later (later (later start (run 0 (close refl))) (run 0 (load_null refl))) (run 1 (enter refl))

early_exit_locks_example :
    (0 < closed.batch.await_counter)
    × ((v : ℕ) (c : FutureBatcher ℕ) (p : Pc ℕ ℕ)
        → Move closed.batch ((after closed 1 closed.batch (ready none)).pc v) c p
        → polls p ≡ false)
early_exit_locks_example = early_exit_locks closed-Reach 1 refl (closed_first refl) stay
