-- ===== src/Sync/Maker/Exclusion.antt =====
-- The asynchronous lock of crates/sync/src/maker.rs is held by one task at a time, and the keys of the
-- waiting futures differ.
use hala_rs.Base.{
  ℕ, ◌≤◌, ◌<◌, ◌≡◌, ◌≢◌, ◌⊎◌, inl, inr, Bool, true, false, Option, some, none, arith, update,
  Bool-cases, ◌==◌, ==_self,
}
use hala_rs.Base.Maps.{Nat-Eq}
use hala_rs.Sync.Maker.{
  wait_lockable, cancel, notify_all, AsyncLock, Pc, retrying, cancelling, unlocking_ready,
  unlocking_pending, pending, holding, notify_locking, notifying, Move, register, try_lock,
  retry_lock, System, run, Reach, start, later,
}

abbrev pub owns : Pc → Bool
owns (cancelling k) = true
owns unlocking_ready = true
owns holding = true
owns _ = false

abbrev pub notifies : Pc → Bool
notifies notify_locking = true
notifies notifying = true
notifies _ = false

-- The key that the future of a thread has in the map.
abbrev pub key : Pc → Option ℕ
key (retrying k w) = some k
key (cancelling k) = some k
key (unlocking_pending k w) = some k
key (pending k w) = some k
key _ = none

pub record Inv (l : AsyncLock) (pc : ℕ → Pc) : Type 0 where
  pub owned : l.locked ≡ true → (t : ℕ) × (owns (pc t) ≡ true)
  pub locked : (t : ℕ) → owns (pc t) ≡ true → l.locked ≡ true
  pub one_owner : (t u : ℕ) → owns (pc t) ≡ true → owns (pc u) ≡ true → t ≡ u
  pub fresh : (t k : ℕ) → key (pc t) ≡ some k → k < l.mediator.key_next
  pub distinct : (t u k : ℕ) → key (pc t) ≡ some k → key (pc u) ≡ some k → t ≡ u

-- A move leaves the lock as it is, or takes it when it is free, or frees it.
Move-turn :
    {l l' : AsyncLock} {p p' : Pc}
    → Move l p l' p'
    → ((owns p' ≡ owns p) × (l'.locked ≡ l.locked))
      ⊎ (((l.locked ≡ false) × (owns p' ≡ true) × (l'.locked ≡ true))
          ⊎ ((owns p ≡ true) × (owns p' ≡ false) × (l'.locked ≡ false) × (notifies p' ≡ true)))
Move-turn (try_lock e) = ground (arith, e)
Move-turn (retry_lock e) = ground (arith, e)
Move-turn mv = ground arith

-- A key is made fresh by `wait_lockable`.
Move-key :
    {l l' : AsyncLock} {p p' : Pc}
    → Move l p l' p'
    → (l.mediator.key_next ≤ l'.mediator.key_next)
      × ((k : ℕ)
          → key p' ≡ some k
          → (key p ≡ some k) ⊎ ((k ≡ l.mediator.key_next) × (k < l'.mediator.key_next)))
unfolding wait_lockable cancel notify_all
Move-key register = (omega arith, λ k e. inr (ground (arith, e)))
Move-key mv = (omega arith, λ k e. ground (arith, e))

module _ {l l' : AsyncLock} {pc : ℕ → Pc} {p' : Pc} (inv : Inv l pc) (t : ℕ)
    (mv : Move l (pc t) l' p') where
  open inv use {owned, locked, one_owner, fresh, distinct}

  Move-locked : (u : ℕ) → owns (update pc t p' u) ≡ true → l'.locked ≡ true
  Move-locked u e = ground (arith, e, Move-turn mv, locked u, locked t, one_owner t u)

  Move-owned : l'.locked ≡ true → (u : ℕ) × (owns (update pc t p' u) ≡ true)
  Move-owned e = elim (Bool-cases (owns p')) [
    | inl o ↦ (t, rw (==_self t) o)
    | inr o ↦
        let before : l.locked ≡ true = ground (arith, e, o, Move-turn mv) in
        let (u, g) = owned before in
        let other : (t == u) ≡ false = ground (arith, e, o, g, Move-turn mv) in (u, rw other g)
  ]

  Move-excluded : (u : ℕ) → (t == u) ≡ false → owns (pc u) ≡ true → owns p' ≡ false
  Move-excluded u d e = ground (arith, Move-turn mv, locked u, one_owner t u)

  Move-one_owner :
      (u v : ℕ) → owns (update pc t p' u) ≡ true → owns (update pc t p' v) ≡ true → u ≡ v
  Move-one_owner u v e f = elim (Bool-cases (t == u)) [
    | inl s ↦ ground (arith, e, f, s, Move-excluded v)
    | inr d ↦ ground (arith, e, f, d, Move-excluded u, one_owner u v)
  ]

  own_key :
      (k : ℕ)
      → key p' ≡ some k
      → (key (pc t) ≡ some k) ⊎ ((k ≡ l.mediator.key_next) × (k < l'.mediator.key_next))
  own_key = (Move-key mv).1

  Move-fresh : (u k : ℕ) → key (update pc t p' u) ≡ some k → k < l'.mediator.key_next
  Move-fresh u k e = elim (Bool-cases (t == u)) [
    | inl s ↦ ground (arith, own_key k (rw s at e), fresh t k, (Move-key mv).0)
    | inr d ↦ ground (arith, fresh u k (rw d at e), (Move-key mv).0)
  ]

  -- A key of the thread that moved is that of no other thread.
  other_key : (u k : ℕ) → (t == u) ≡ false → key p' ≡ some k → key (pc u) ≢ some k
  other_key u k d e f = ground (arith, d, own_key k e, fresh u k f, distinct t u k)

  Move-distinct :
      (u v k : ℕ) → key (update pc t p' u) ≡ some k → key (update pc t p' v) ≡ some k → u ≡ v
  Move-distinct u v k e f = elim (Bool-cases (t == u)) [
    | inl s ↦ elim (Bool-cases (t == v)) [
      | inl r ↦ ground (arith, s, r)
      | inr r ↦ absurd (other_key v k r (rw s at e) (rw r at f))
    ]
    | inr s ↦ elim (Bool-cases (t == v)) [
      | inl r ↦ absurd (other_key u k s (rw r at f) (rw s at e))
      | inr r ↦ distinct u v k (rw s at e) (rw r at f)
    ]
  ]

  pub Move-Inv : Inv l' (update pc t p')
  Move-Inv = record {
    owned = Move-owned;
    locked = Move-locked;
    one_owner = Move-one_owner;
    fresh = Move-fresh;
    distinct = Move-distinct;
  }

pub Reach-Inv : {s : System} → Reach s → Inv s.lock s.pc
Reach-Inv start = record {
  owned = λ e. cc;
  locked = λ t e. cc;
  one_owner = λ t u e f. cc;
  fresh = λ t k e. cc;
  distinct = λ t u k e f. cc;
}
Reach-Inv (later r (run t mv)) = Move-Inv (Reach-Inv r) t mv

-- Mutual exclusion: under every interleaving, while a task has the guard, the inner lock is
-- held and no other task has it.
pub one_guard :
    {s : System}
    → Reach s
    → (t : ℕ) → owns (s.pc t) ≡ true
    → (s.lock.locked ≡ true) × ((u : ℕ) → owns (s.pc u) ≡ true → t ≡ u)
one_guard r t e = ((Reach-Inv r).locked t e, λ u f. (Reach-Inv r).one_owner t u e f)
