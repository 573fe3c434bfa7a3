-- ===== src/Sync/Maker.antt =====
-- crates/sync/src/maker.rs: `AsyncLockableMaker` over two locks, its future and its guard, shared by
-- threads, one access at a time, and `DefaultAsyncLockableMediator`. The two locks answer `try_lock`,
-- `lock` and the drop of a guard at once, as crates/sync/src/spin.rs does.
pub mod Exclusion
pub mod Wakeups
use hala_rs.Base.{ℕ, ◌+◌, ◌≡◌, Bool, true, false, Option, none, some, List, [], ◌∷◌, ◌++◌, update}
use hala_rs.Base.Maps.{lookup, insert, remove, Nat-Eq}

-- `DefaultAsyncLockableMediator`, a waker named by a number. The last field is no part of the code: the
-- keys whose wakers were called.
pub record Mediator : Type 0 where
  pub key_next : ℕ
  pub wakers : List (ℕ × ℕ)
  pub woken : List ℕ

abbrev pub default : Mediator
default = record { key_next = 0; wakers = []; woken = [] }

unfoldable pub wait_lockable : ℕ → Mediator → ℕ × Mediator
wait_lockable waker m =
    let key = m.key_next in
    (key, record m { key_next = key + 1; wakers = insert key waker m.wakers })

unfoldable pub cancel : ℕ → Mediator → Bool × Mediator
cancel key m = (
  elim (lookup key m.wakers) [ none ↦ false | some w ↦ true ],
  record m { wakers = remove key m.wakers },
)

-- The first key of the map is that of the list.
unfoldable pub notify_one : Mediator → Mediator
notify_one m = elim m.wakers [
  | [] ↦ m
  | ◌∷◌ (k, w) ws ↦ record m { wakers = remove k m.wakers; woken = k ∷ m.woken }
]

abbrev pub keys : List (ℕ × ℕ) → List ℕ
keys [] = []
keys ((k, w) ∷ ws) = k ∷ keys ws

unfoldable pub notify_all : Mediator → Mediator
notify_all m = record m { wakers = []; woken = keys m.wakers ++ m.woken }

-- `inner_locker` and the lock around the mediator, each with whether it is held.
pub record AsyncLock : Type 0 where
  pub locked : Bool
  pub wakers_locked : Bool
  pub mediator : Mediator

-- Where a thread stands, with the waker of its task and the key that the future holds.
pub data Pc : Type 0 where
  idle : Pc
  trying : (waker : ℕ) → Pc  -- `poll`
  locking_wakers : (waker : ℕ) → Pc
  registering : (waker : ℕ) → Pc
  retrying : (key waker : ℕ) → Pc
  cancelling : (key : ℕ) → Pc
  unlocking_ready : Pc  -- the guard of the wakers goes, and `poll` returns `Ready`
  unlocking_pending : (key waker : ℕ) → Pc
  pending : (key waker : ℕ) → Pc
  holding : Pc
  notify_locking : Pc  -- the drop of the guard, behind that of the inner guard
  notifying : Pc
  unlocking : Pc

-- One access of one thread.
pub data Move (l : AsyncLock) : Pc → AsyncLock → Pc → Type 0 where
  call_lock : (waker : ℕ) → Move l idle l (trying waker)
  try_lock : {w : ℕ} → l.locked ≡ false → Move l (trying w) (record l { locked = true }) holding
  try_fails : {w : ℕ} → l.locked ≡ true → Move l (trying w) l (locking_wakers w)
  lock_wakers :
      {w : ℕ}
      → l.wakers_locked ≡ false
      → Move l (locking_wakers w) (record l { wakers_locked = true }) (registering w)
  register :
      {w : ℕ}
      → Move l
          (registering w)
          (record l { mediator = (wait_lockable w l.mediator).1 })
          (retrying (wait_lockable w l.mediator).0 w)
  retry_lock :
      {k w : ℕ}
      → l.locked ≡ false
      → Move l (retrying k w) (record l { locked = true }) (cancelling k)
  retry_fails : {k w : ℕ} → l.locked ≡ true → Move l (retrying k w) l (unlocking_pending k w)
  cancel_key :
      {k : ℕ}
      → Move l (cancelling k) (record l { mediator = (cancel k l.mediator).1 }) unlocking_ready
  unlock_ready : Move l unlocking_ready (record l { wakers_locked = false }) holding
  unlock_pending :
      {k w : ℕ} → Move l (unlocking_pending k w) (record l { wakers_locked = false }) (pending k w)
  poll_again : {k w : ℕ} (waker : ℕ) → Move l (pending k w) l (trying waker)
  drop_future : {k w : ℕ} → Move l (pending k w) l idle
  drop_guard : Move l holding (record l { locked = false }) notify_locking
  notify_lock :
      l.wakers_locked ≡ false → Move l notify_locking (record l { wakers_locked = true }) notifying
  notify : Move l notifying (record l { mediator = notify_all l.mediator }) unlocking
  notify_unlock : Move l unlocking (record l { wakers_locked = false }) idle

-- Any number of threads over one lock.
pub record System : Type 0 where
  pub lock : AsyncLock
  pub pc : ℕ → Pc

abbrev pub init : System
init = record {
  lock = record { locked = false; wakers_locked = false; mediator = default };
  pc = λ t. idle;
}

pub data Step (s : System) : System → Type 0 where
  run :
      (t : ℕ) {l : AsyncLock} {p : Pc}
      → Move s.lock (s.pc t) l p
      → Step s (record { lock = l; pc = update s.pc t p })

pub data Reach : System → Type 0 where
  start : Reach init
  later : {s u : System} → Reach s → Step s u → Reach u
