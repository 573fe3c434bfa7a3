-- ===== src/Tests/Maker.antt =====
-- The theorems on crates/sync/src/maker.rs in a run of two tasks: task 0 has the lock, and task 1 waits
-- for it.
use hala_rs.Base.{ℕ, ◌≡◌, ◌⊎◌, refl, true, false, some, update}
use hala_rs.Base.Maps.{lookup, Nat-Eq}
use hala_rs.Base.Sets.{contains}
use hala_rs.Sync.Maker.{
  AsyncLock, Pc, wait_lockable, trying, locking_wakers, registering, retrying, unlocking_pending,
  pending, holding, call_lock, try_lock, try_fails, lock_wakers, register, retry_fails,
  unlock_pending, System, init, run, Reach, start, later,
}
use hala_rs.Sync.Maker.Exclusion.{owns, one_guard}
use hala_rs.Sync.Maker.Wakeups.{waiter_is_woken, Served}

abbrev after : System → ℕ → AsyncLock → Pc → System
after s t l p = record { lock = l; pc = update s.pc t p }

abbrev held : System
held =
    let a = after init 0 init.lock (trying 8) in after a 0 (record a.lock { locked = true }) holding

abbrev waiting : System
waiting =
    let a = after held 1 held.lock (trying 9) in
    let b = after a 1 a.lock (locking_wakers 9) in
    let c = after b 1 (record b.lock { wakers_locked = true }) (registering 9) in
    let d =
      after c 1 (record c.lock { mediator = (wait_lockable 9 c.lock.mediator).1 })
        (retrying (wait_lockable 9 c.lock.mediator).0 9) in
    let e = after d 1 d.lock (unlocking_pending (wait_lockable 9 c.lock.mediator).0 9) in
    after e 1 (record e.lock { wakers_locked = false })
      (pending (wait_lockable 9 c.lock.mediator).0 9)

held-Reach : Reach held
held-Reach = later (later start (run 0 (call_lock 8))) (run 0 (try_lock refl))

waiting-Reach : Reach waiting
waiting-Reach =
    let asked = later (later held-Reach (run 1 (call_lock 9))) (run 1 (try_fails refl)) in
    let registered = later (later asked (run 1 (lock_wakers refl))) (run 1 register) in
    later (later registered (run 1 (retry_fails refl))) (run 1 unlock_pending)

one_guard_example : (held.lock.locked ≡ true) × ((u : ℕ) → owns (held.pc u) ≡ true → 0 ≡ u)
one_guard_example = one_guard held-Reach 0 refl

waiter_is_woken_example :
    (contains 0 waiting.lock.mediator.woken ≡ true)
    ⊎ ((lookup 0 waiting.lock.mediator.wakers ≡ some 9) × Served waiting.pc)
unfolding wait_lockable
waiter_is_woken_example = waiter_is_woken waiting-Reach 1 0 9 refl
