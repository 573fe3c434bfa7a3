-- ===== src/Sync/Maker/Wakeups.antt =====
-- A task that waits for the asynchronous lock of crates/sync/src/maker.rs is woken.
use hala_rs.Base.{
  ℕ, ◌<◌, ◌≡◌, ◌≢◌, ◌⊎◌, inl, inr, refl, ap, sym, Bool, true, false, Option, some, none, List, [],
  ◌∷◌, if◌then◌else◌, arith, update, Bool-cases, ◌==◌, ==_self, ==_iff,
}
use hala_rs.Base.Maps.{lookup, insert, lookup-insert, lookup-remove, Nat-Eq}
use hala_rs.Base.Sets.{contains, contains-append}
use hala_rs.Sync.Maker.{
  keys, wait_lockable, cancel, notify_all, AsyncLock, Pc, retrying, cancelling, unlocking_pending,
  pending, Move, register, retry_fails, cancel_key, notify, System, Step, run, Reach, start, later,
}
use hala_rs.Sync.Maker.Exclusion.{owns, notifies, key, Inv, Reach-Inv}

-- The key and the waker of a future that has registered.
abbrev pub slot : Pc → Option (ℕ × ℕ)
slot (retrying k w) = some (k, w)
slot (unlocking_pending k w) = some (k, w)
slot (pending k w) = some (k, w)
slot _ = none

-- The thread has the lock, or has freed it and is about to wake the waiting tasks.
abbrev pub serves : Pc → Bool
serves p = if owns p then true else notifies p

abbrev pub Served : (ℕ → Pc) → Type 0
Served pc = (u : ℕ) × (serves (pc u) ≡ true)

abbrev tries : Pc → Bool
tries (retrying k w) = true
tries _ = false

abbrev Cared : AsyncLock → (ℕ → Pc) → Pc → ℕ → ℕ → Type 0
Cared l pc p k w =
    (contains k l.mediator.woken ≡ true)
    ⊎ ((lookup k l.mediator.wakers ≡ some w) × ((tries p ≡ true) ⊎ Served pc))

lookup-contains : (k w : ℕ) (m : List (ℕ × ℕ)) → lookup k m ≡ some w → contains k (keys m) ≡ true
unfolding lookup Nat-Eq
lookup-contains k w [] e = cc
lookup-contains k w ((j, v) ∷ m) e = ground (arith, e, lookup-contains k w m)

Move-woken :
    {l l' : AsyncLock} {p p' : Pc}
    → Move l p l' p'
    → (k : ℕ) → contains k l.mediator.woken ≡ true
    → contains k l'.mediator.woken ≡ true
unfolding wait_lockable cancel notify_all
Move-woken {l = l} notify k e =
    ground (arith, e, contains-append k (keys l.mediator.wakers) l.mediator.woken)
Move-woken register k e = e
Move-woken cancel_key k e = e
Move-woken mv k e = e

-- A registered waker stays, but for a call and for its own future's `cancel`.
Move-registered :
    {l l' : AsyncLock} {p p' : Pc}
    → Move l p l' p'
    → (k w : ℕ) → k < l.mediator.key_next
    → p ≢ cancelling k
    → lookup k l.mediator.wakers ≡ some w
    → (lookup k l'.mediator.wakers ≡ some w) ⊎ (contains k l'.mediator.woken ≡ true)
unfolding wait_lockable cancel notify_all Nat-Eq
Move-registered {l = l} notify k w h n e = inr (
    ground (
      arith,
      lookup-contains k w l.mediator.wakers e,
      contains-append k (keys l.mediator.wakers) l.mediator.woken,
    ))
Move-registered {l = l} (register {w = v}) k w h n e =
    inl (ground (arith, h, e, lookup-insert l.mediator.key_next k v l.mediator.wakers))
Move-registered {l = l} (cancel_key {k = j}) k w h n e =
    let other : (j == k) ≡ false = elim (Bool-cases (j == k)) [
      | inl s ↦ absurd (n (ap cancelling ((==_iff j k).0 s)))
      | inr d ↦ d
    ] in
    inl (ground (arith, other, e, lookup-remove j k l.mediator.wakers))
Move-registered mv k w h n e = inl e

Move-serves :
    {l l' : AsyncLock} {p p' : Pc}
    → Move l p l' p'
    → serves p ≡ true
    → (k w : ℕ) → lookup k l.mediator.wakers ≡ some w
    → (serves p' ≡ true) ⊎ (contains k l'.mediator.woken ≡ true)
unfolding wait_lockable cancel notify_all
Move-serves {l = l} notify e k w f = inr (
    ground (
      arith,
      lookup-contains k w l.mediator.wakers f,
      contains-append k (keys l.mediator.wakers) l.mediator.woken,
    ))
Move-serves mv e k w f = ground (arith, e)

-- The thread that moves registers its waker, or goes on with it.
Move-own :
    {l l' : AsyncLock} {p p' : Pc}
    → Move l p l' p'
    → (k w : ℕ) → slot p' ≡ some (k, w)
    → ((lookup k l'.mediator.wakers ≡ some w) × (tries p' ≡ true))
      ⊎ ((slot p ≡ some (k, w)) × ((l.locked ≡ true) ⊎ (tries p ≡ false)))
unfolding wait_lockable insert lookup Nat-Eq
Move-own {l = l} (register {w = v}) k w e = ground (arith, e)
Move-own (retry_fails f) k w e = inr (e, inl f)
Move-own mv k w e = ground (arith, e)

module _ {l l' : AsyncLock} {pc : ℕ → Pc} {p' : Pc} (inv : Inv l pc) (t : ℕ)
    (mv : Move l (pc t) l' p') where
  Move-Served :
      (k w : ℕ)
      → lookup k l.mediator.wakers ≡ some w
      → Served pc
      → Served (update pc t p') ⊎ (contains k l'.mediator.woken ≡ true)
  Move-Served k w e (u, s) = elim (Bool-cases (t == u)) [
    | inr d ↦ inl (u, rw d s)
    | inl same ↦ elim (Move-serves mv (rw (sym ((==_iff t u).0 same)) at s) k w e) [
      | inl f ↦ inl (t, rw (==_self t) f)
      | inr f ↦ inr f
    ]
  ]

  -- What a future keeps when a thread moves; `r` is where its own thread stands then.
  Cared-carry :
      (k w : ℕ) (r : Pc)
      → k < l.mediator.key_next
      → pc t ≢ cancelling k
      → lookup k l.mediator.wakers ≡ some w
      → (tries r ≡ true) ⊎ Served pc
      → Cared l' (update pc t p') r k w
  Cared-carry k w r h n e c = elim (Move-registered mv k w h n e) [
    | inr f ↦ inl f
    | inl f ↦ elim c [
      | inl s ↦ inr (f, inl s)
      | inr s ↦ elim (Move-Served k w e s) [ inl u ↦ inr (f, inr u) | inr g ↦ inl g ]
    ]
  ]

slot-key : (p : Pc) (k w : ℕ) → slot p ≡ some (k, w) → (key p ≡ some k) × (p ≢ cancelling k)
slot-key (retrying j v) k w e = (ground (arith, e), λ f. cc)
slot-key (unlocking_pending j v) k w e = (ground (arith, e), λ f. cc)
slot-key (pending j v) k w e = (ground (arith, e), λ f. cc)
slot-key p k w e = cc

module _ {l l' : AsyncLock} {pc : ℕ → Pc} {p' : Pc} (inv : Inv l pc) (t : ℕ)
    (mv : Move l (pc t) l' p') where
  own_Cared :
      ((u k w : ℕ) → slot (pc u) ≡ some (k, w) → Cared l pc (pc u) k w)
      → (k w : ℕ) → slot p' ≡ some (k, w)
      → Cared l' (update pc t p') p' k w
  own_Cared h k w e = elim (Move-own mv k w e) [
    | inl (f, g) ↦ inr (f, inl g)
    | inr (o, c) ↦
        let at = slot-key (pc t) k w o in
        elim (h t k w o) [
          | inl g ↦ inl (Move-woken mv k g)
          | inr (g, d) ↦
              let served : Served pc = elim c [
                | inl held ↦ let (u, owner) = inv.owned held in (u, rw owner refl)
                | inr idles ↦ elim d [ inl tried ↦ absurd (cc) | inr s ↦ s ]
              ] in
              Cared-carry inv t mv k w p' (inv.fresh t k at.0) at.1 g (inr served)
        ]
  ]

  other_Cared :
      ((u k w : ℕ) → slot (pc u) ≡ some (k, w) → Cared l pc (pc u) k w)
      → (u k w : ℕ) → (t == u) ≡ false
      → slot (pc u) ≡ some (k, w)
      → Cared l' (update pc t p') (pc u) k w
  other_Cared h u k w d e =
      let at = slot-key (pc u) k w e in
      let not_mine : pc t ≢ cancelling k =
        λ f. cc (inv.distinct t u k (ap key f) at.0, d, ==_self u) in
      elim (h u k w e) [
        | inl g ↦ inl (Move-woken mv k g)
        | inr (g, c) ↦ Cared-carry inv t mv k w (pc u) (inv.fresh u k at.0) not_mine g c
      ]

  Move-Cared :
      ((u k w : ℕ) → slot (pc u) ≡ some (k, w) → Cared l pc (pc u) k w)
      → (u k w : ℕ) → slot (update pc t p' u) ≡ some (k, w)
      → Cared l' (update pc t p') (update pc t p' u) k w
  Move-Cared h u k w e = elim (Bool-cases (t == u)) [
    | inl s ↦ rw s (own_Cared h k w (rw s at e))
    | inr d ↦ rw d (other_Cared h u k w d (rw d at e))
  ]

Step-Cared :
    {s v : System}
    → Step s v
    → Inv s.lock s.pc
    → ((u k w : ℕ) → slot (s.pc u) ≡ some (k, w) → Cared s.lock s.pc (s.pc u) k w)
    → (u k w : ℕ) → slot (v.pc u) ≡ some (k, w)
    → Cared v.lock v.pc (v.pc u) k w
Step-Cared (run t mv) inv h = Move-Cared inv t mv h

Reach-Cared :
    {s : System}
    → Reach s
    → (u k w : ℕ) → slot (s.pc u) ≡ some (k, w)
    → Cared s.lock s.pc (s.pc u) k w
Reach-Cared start u k w e = cc
Reach-Cared (later r st) u k w e = Step-Cared st (Reach-Inv r) (Reach-Cared r) u k w e

-- No wake-up is lost: under every interleaving, while a future of `lock` has returned `Pending`, the
-- waker that it registered was called, or it is still registered and there is a task that has the
-- lock, or has freed it and is about to wake all registered wakers.
pub waiter_is_woken :
    {s : System}
    → Reach s
    → (t k w : ℕ) → s.pc t ≡ pending k w
    → (contains k s.lock.mediator.woken ≡ true)
      ⊎ ((lookup k s.lock.mediator.wakers ≡ some w) × Served s.pc)
waiter_is_woken {s = s} r t k w e =
    let cared : Cared s.lock s.pc (pending k w) k w = rw e at (Reach-Cared r t k w (ap slot e)) in
    ground (arith, cared)
