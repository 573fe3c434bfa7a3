-- ===== src/Future/EventMap.antt =====
-- crates/future/src/event_map.rs: `EventMap` and the future `Wait`. A waiter stands for the `Arc` of
-- one `Wait`, with the reason cell that it shares with the waker in the map.
pub mod Laws
pub mod Broadcast
use mathlib.Core.Bool.{not}
use hala_rs.Base.{
  ℕ, ◌≡◌, Bool, true, false, Option, none, some, List, [], ◌∷◌, ◌++◌, map, update, ◌==◌,
  if◌then◌else◌,
}
use hala_rs.Base.Maps.{Eq, lookup, remove, insert}

pub data Reason : Type 0 where
  unset on cancel destroy : Reason

pub data EventMapError : Type 0 where
  cancelled destroyed : EventMapError

-- `wakers`, the reason cell of every waiter, and the waiters whose wakers were called, last first.
pub record EventMap (E : Type 0) : Type 0 where
  pub wakers : List (E × ℕ)
  pub reasons : ℕ → Reason
  pub woken : List ℕ

abbrev pub default : (E : Type 0) → EventMap E
default E = record { wakers = []; reasons = λ _. unset; woken = [] }

module _ {E : Type 0} where
  -- `WakerWithReason::wake` and `wake_by_ref`
  abbrev pub wake : ℕ → Reason → EventMap E → EventMap E
  wake w r m = record m { reasons = update m.reasons w r; woken = w ∷ m.woken }

  -- `Drop` for `EventMap`: every waker is called, and the map stays.
  unfoldable pub wake_all : List (E × ℕ) → Reason → EventMap E → EventMap E
  wake_all [] r m = m
  wake_all ((e, w) ∷ ws) r m = wake_all ws r (wake w r m)

  unfoldable pub drop : EventMap E → EventMap E
  unfolding wake_all
  drop m = wake_all m.wakers destroy m

  module _ ⦃eq : Eq E⦄ where
    unfoldable pub wait_cancel : E → EventMap E → EventMap E
    wait_cancel e m = record m { wakers = remove e m.wakers }

    unfoldable pub notify_one : E → Reason → EventMap E → Bool × EventMap E
    notify_one e r m = elim (lookup e m.wakers) [
      | none ↦ (false, m)
      | some w ↦ (true, wake w r (record m { wakers = remove e m.wakers }))
    ]

    unfoldable pub notify_all : List E → Reason → EventMap E → EventMap E
    unfolding notify_one
    notify_all [] r m = m
    notify_all (e ∷ es) r m = notify_all es r (notify_one e r m).1

    unfoldable pub notify_any : Reason → EventMap E → EventMap E
    unfolding notify_all
    notify_any r m = notify_all (map (λ p. p.0) m.wakers) r m

-- The future `Wait`; `guard` tells whether it still holds the lock.
pub record Wait (E : Type 0) : Type 0 where
  pub event : E
  pub waiter : ℕ
  pub guard : Bool

pub data Poll : Type 0 where
  pending : Poll
  ready : Poll
  failed : EventMapError → Poll

abbrev pub poll_reason : Reason → Poll
poll_reason unset = pending
poll_reason on = ready
poll_reason cancel = failed cancelled
poll_reason destroy = failed destroyed

module _ {E : Type 0} ⦃eq : Eq E⦄ where
  -- The first half of `poll`: enter the waker, then unlock.
  abbrev pub register : Wait E → EventMap E → EventMap E
  register w m = if w.guard then record m { wakers = insert w.event w.waiter m.wakers } else m

  -- `poll` returns the result, the future with its guard taken, and the map.
  unfoldable pub poll : Wait E → EventMap E → Poll × Wait E × EventMap E
  poll w m = (poll_reason (m.reasons w.waiter), record w { guard = false }, register w m)
