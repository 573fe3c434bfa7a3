-- ===== src/Sync/Spin/Exclusion.antt =====
-- Mutual exclusion of `SpinMutex`, crates/sync/src/spin.rs.
use hala_rs.Base.{
  ℕ, ◌≡◌, ◌≢◌, ◌⊎◌, inl, inr, refl, ap, arith, Bool-cases, Bool, true, false, update, ◌==◌,
}
use hala_rs.Sync.Spin.{
  SpinMutex, new, Pc, idle, trying, waiting, acquired, holding, clearing, panicked, Move, call_lock,
  exchange, exchange_fails, load_held, load_free, try_fails, try_exchange, set_guard,
  set_guard_panics, deref_mut, unset_guard, unset_guard_panics, store, System, run, Reach, start,
  later,
}

-- The thread that set the flag.
abbrev is_owner : Pc → Bool
is_owner idle = false
is_owner trying = false
is_owner waiting = false
is_owner acquired = true
is_owner (holding ptr) = true
is_owner clearing = true
is_owner panicked = true

module _ {A : Type 0} where
  abbrev Knows : SpinMutex A → Pc → Type 0
  Knows l idle = Unit
  Knows l trying = Unit
  Knows l waiting = Unit
  Knows l acquired = (l.flag ≡ true) × (l.guard ≡ 0)
  Knows l (holding ptr) = (l.flag ≡ true) × (l.guard ≡ ptr)
  Knows l clearing = (l.flag ≡ true) × (l.guard ≡ 0)
  Knows l panicked = ⊥

  record Inv (l : SpinMutex A) (pc : ℕ → Pc) : Type 0 where
    pub knows : (t : ℕ) → Knows l (pc t)
    pub one_owner : (t u : ℕ) → is_owner (pc t) ≡ true → is_owner (pc u) ≡ true → t ≡ u
    pub free : l.flag ≡ false → l.guard ≡ 0

  owner_flag : (l : SpinMutex A) (p : Pc) → Knows l p → is_owner p ≡ true → l.flag ≡ true
  owner_flag l acquired k e = k.0
  owner_flag l (holding ptr) k e = k.0
  owner_flag l clearing k e = k.0
  owner_flag l panicked k e = absurd k
  owner_flag l p k e = cc

  Knows-other : (l l' : SpinMutex A) (p : Pc) → is_owner p ≡ false → Knows l p → Knows l' p
  Knows-other l l' idle e k = tt
  Knows-other l l' trying e k = tt
  Knows-other l l' waiting e k = tt
  Knows-other l l' panicked e k = k
  Knows-other l l' p e k = cc

  Knows-value : (l : SpinMutex A) (v : A) (p : Pc) → Knows l p → Knows (record l { value = v }) p
  Knows-value l v idle k = tt
  Knows-value l v trying k = tt
  Knows-value l v waiting k = tt
  Knows-value l v acquired k = k
  Knows-value l v (holding ptr) k = k
  Knows-value l v clearing k = k
  Knows-value l v panicked k = k

  init-Inv : (v : A) → Inv (new v) (λ t. idle)
  init-Inv v = record { knows = λ t. tt; one_owner = λ t u e f. cc; free = λ e. refl }

  module _ {l : SpinMutex A} {pc : ℕ → Pc} (inv : Inv l pc) (t : ℕ) where
    open inv use {knows, one_owner, free}

    Move-free :
        {p p' : Pc} {l' : SpinMutex A} → Move l p l' p' → Knows l p → l'.flag ≡ false → l'.guard ≡ 0
    Move-free (set_guard ptr n g) k e = ground (arith, k, e)
    Move-free (unset_guard g) k e = refl
    Move-free store k e = k.1
    Move-free mv k e = ground (arith, free, e)

    Move-one_owner :
        {p p' : Pc} {l' : SpinMutex A}
        → Move l p l' p'
        → pc t ≡ p
        → (a b : ℕ) → is_owner (update pc t p' a) ≡ true
        → is_owner (update pc t p' b) ≡ true
        → a ≡ b
    Move-one_owner (exchange g) at a b e f =
        ground (arith, g, owner_flag l (pc a) (knows a), owner_flag l (pc b) (knows b))
    Move-one_owner (try_exchange g) at a b e f =
        ground (arith, g, owner_flag l (pc a) (knows a), owner_flag l (pc b) (knows b))
    Move-one_owner mv at a b e f = ground (arith, one_owner a b)

    other_free : (a : ℕ) → l.flag ≡ false → is_owner (pc a) ≡ false
    other_free a g = ground (arith, g, owner_flag l (pc a) (knows a))

    other_idle : (a : ℕ) → is_owner (pc t) ≡ true → (t == a) ≡ false → is_owner (pc a) ≡ false
    other_idle a e n = ground (arith, e, n, one_owner t a)

    -- Threads other than the one that moves.
    Move-others :
        {p p' : Pc} {l' : SpinMutex A}
        → Move l p l' p'
        → pc t ≡ p
        → (a : ℕ) → (t == a) ≡ false
        → Knows l' (pc a)
    Move-others (exchange g) at a n =
        Knows-other l (record l { flag = true }) (pc a) (other_free a g) (knows a)
    Move-others (try_exchange g) at a n =
        Knows-other l (record l { flag = true }) (pc a) (other_free a g) (knows a)
    Move-others (set_guard ptr d g) at a n =
        Knows-other l (record l { guard = ptr }) (pc a) (other_idle a (ap is_owner at) n) (knows a)
    Move-others (deref_mut v) at a n = Knows-value l v (pc a) (knows a)
    Move-others (unset_guard g) at a n =
        Knows-other l (record l { guard = 0 }) (pc a) (other_idle a (ap is_owner at) n) (knows a)
    Move-others store at a n =
        Knows-other l (record l { flag = false }) (pc a) (other_idle a (ap is_owner at) n) (knows a)
    Move-others call_lock at a n = knows a
    Move-others exchange_fails at a n = knows a
    Move-others (load_held g) at a n = knows a
    Move-others (load_free g) at a n = knows a
    Move-others (try_fails g) at a n = knows a
    Move-others (set_guard_panics g) at a n = knows a
    Move-others (unset_guard_panics g) at a n = knows a

    Move-self : {p p' : Pc} {l' : SpinMutex A} → Move l p l' p' → Knows l p → Knows l' p'
    Move-self (exchange g) k = (refl, free g)
    Move-self (try_exchange g) k = (refl, free g)
    Move-self (set_guard ptr d g) k = (k.0, refl)
    Move-self (deref_mut v) k = k
    Move-self (unset_guard g) k = (k.0, refl)
    Move-self (set_guard_panics g) k = g k.1
    Move-self (unset_guard_panics g) k = g k.1
    Move-self store k = tt
    Move-self call_lock k = tt
    Move-self exchange_fails k = tt
    Move-self (load_held g) k = tt
    Move-self (load_free g) k = tt
    Move-self (try_fails g) k = tt

    Move-Knows :
        {p' : Pc} {l' : SpinMutex A} → Move l (pc t) l' p' → (a : ℕ) → Knows l' (update pc t p' a)
    Move-Knows mv a = elim (Bool-cases (t == a)) [
      | inl e ↦ rw e (Move-self mv (knows t))
      | inr e ↦ rw e (Move-others mv refl a e)
    ]

    Move-Inv : {p' : Pc} {l' : SpinMutex A} → Move l (pc t) l' p' → Inv l' (update pc t p')
    Move-Inv mv = record {
      knows = Move-Knows mv;
      one_owner = Move-one_owner mv refl;
      free = Move-free mv (knows t);
    }

  Reach-Inv : {v : A} {s : System A} → Reach v s → Inv s.lock s.pc
  Reach-Inv {v} start = init-Inv v
  Reach-Inv (later r (run t mv)) = Move-Inv (Reach-Inv r) t mv

  keeps_value :
      {l l' : SpinMutex A} {p p' : Pc}
      → Move l p l' p'
      → (l'.value ≡ l.value) ⊎ ((ptr : ℕ) × (p ≡ holding ptr))
  keeps_value (deref_mut v) = inr (_, refl)
  keeps_value mv = inl refl

-- Under every interleaving, while a thread holds a guard no other thread does, no other thread's
-- access changes the protected value, and no thread has panicked in setting or unsetting the address
-- of its guard.
pub holding_excludes :
    {A : Type 0} {v : A} {s : System A}
    → Reach v s
    → (t ptr : ℕ) → s.pc t ≡ holding ptr
    → ((u q : ℕ) → s.pc u ≡ holding q → u ≡ t)
      × ((u : ℕ) (l : SpinMutex A) (p : Pc)
          → Move s.lock (s.pc u) l p
          → (l.value ≡ s.lock.value) ⊎ (u ≡ t))
      × ((u : ℕ) → s.pc u ≢ panicked)
holding_excludes {s = s} r t ptr at =
    let inv = Reach-Inv r in
    let one : (u q : ℕ) → s.pc u ≡ holding q → u ≡ t =
      λ u q e. inv.one_owner u t (ap is_owner e) (ap is_owner at) in
    (
      one,
      λ u l p mv. elim (keeps_value mv) [ inl e ↦ inl e | inr (q, e) ↦ inr (one u q e) ],
      λ u e. rw e at (inv.knows u),
    )
