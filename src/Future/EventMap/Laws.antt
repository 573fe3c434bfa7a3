-- ===== src/Future/EventMap/Laws.antt =====
-- What `EventMap` of crates/future/src/event_map.rs promises to those who wait.
use hala_rs.Base.{
  ℕ, ◌≡◌, inl, inr, refl, ap, sym, true, false, none, some, List, [], ◌∷◌, All, arith, ◌==◌, ==_iff,
  Bool-cases, Option-cases,
}
use hala_rs.Base.Maps.{Eq, lookup, insert, lookup-remove, lookup-insert}
use hala_rs.Future.EventMap.{Reason, unset, EventMap, notify_one, Wait, pending, poll, poll_reason}

module _ {E : Type 0} ⦃eq : Eq E⦄ where
  -- Notifications of single events, one after the other.
  abbrev pub notify_each : List (E × Reason) → EventMap E → EventMap E
  notify_each [] m = m
  notify_each ((e, r) ∷ es) m = notify_each es (notify_one e r m).1

  -- The waiter waits for this event alone, and was not called.
  abbrev Alone : E → ℕ → EventMap E → Type 0
  Alone e w m =
      (lookup e m.wakers ≡ some w)
      × (m.reasons w ≡ unset)
      × ((x : E) → lookup x m.wakers ≡ some w → eq.beq x e ≡ true)

  notify_one-Alone :
      (e x : E) (w : ℕ) (r : Reason) (m : EventMap E)
      → eq.beq x e ≡ false
      → Alone e w m
      → Alone e w (notify_one x r m).1
  unfolding notify_one
  notify_one-Alone e x w r m d (k, u, a) = elim (Option-cases (lookup x m.wakers)) [
    | inl n ↦ rw (notify_one, n) (k, u, a)
    | inr (v, n) ↦
        let other : v == w ≡ false = elim (Bool-cases (v == w)) [
          | inr f ↦ f
          | inl s ↦ let p : v ≡ w = (==_iff v w).0 s in let t = a x (rw p at n) in cc
        ] in
        rw (notify_one, n)
          (
            ground (arith, k, d, lookup-remove x e m.wakers),
            ground (arith, u, other),
            λ y q. a y (ground (arith, q, lookup-remove x y m.wakers)),
          )
  ]

  notify_each-Alone :
      (e : E) (w : ℕ) (es : List (E × Reason)) (m : EventMap E)
      → All (λ p. eq.beq p.0 e ≡ false) es
      → Alone e w m
      → Alone e w (notify_each es m)
  notify_each-Alone e w [] m d h = h
  notify_each-Alone e w ((x, r) ∷ es) m (d, ds) h =
      notify_each-Alone e w es (notify_one x r m).1 ds (notify_one-Alone e x w r m d h)

  insert-Alone :
      (e : E) (w : ℕ) (m : EventMap E)
      → m.reasons w ≡ unset
      → ((x : E) → lookup x m.wakers ≡ some w → eq.beq x e ≡ true)
      → Alone e w (record m { wakers = insert e w m.wakers })
  insert-Alone e w m u a = (
    ground (arith, lookup-insert e e w m.wakers, (eq.beq_iff e e).1 refl),
    u,
    λ x q. elim (Bool-cases (eq.beq e x)) [
      | inl s ↦ (eq.beq_iff x e).1 (sym ((eq.beq_iff e x).0 s))
      | inr d ↦ a x (ground (arith, q, d, lookup-insert e x w m.wakers))
    ],
  )

  notified :
      (e : E) (w : ℕ) (r : Reason) (m : EventMap E)
      → Alone e w m
      → ((notify_one e r m).0 ≡ true)
        × ((notify_one e r m).1.reasons w ≡ r)
        × (lookup e (notify_one e r m).1.wakers ≡ none)
        × ((notify_one e r m).1.woken ≡ w ∷ m.woken)
  unfolding notify_one
  notified e w r m (k, u, a) =
      let self = (eq.beq_iff e e).1 refl in
      rw (notify_one, k)
        (refl, ground arith, ground (arith, self, lookup-remove e e m.wakers), refl)

  -- A waiter that enters the map with its first poll, and stands in it for no other event, is pending
  -- there and behind any notifications of other events; `notify_one` of its own event then finds it,
  -- removes it from the map and calls its waker, and its next poll returns what the reason stands for.
  pub poll-notify_one :
      (w : Wait E) (m : EventMap E) (es : List (E × Reason)) (r : Reason)
      → w.guard ≡ true
      → m.reasons w.waiter ≡ unset
      → ((x : E) → lookup x m.wakers ≡ some w.waiter → eq.beq x w.event ≡ true)
      → All (λ p. eq.beq p.0 w.event ≡ false) es
      → let (first, w', m1) = poll w m in
        let m2 = notify_each es m1 in
        let (found, m3) = notify_one w.event r m2 in
        (first ≡ pending)
        × ((poll w' m2).0 ≡ pending)
        × (lookup w.event m2.wakers ≡ some w.waiter)
        × (found ≡ true)
        × ((poll w' m3).0 ≡ poll_reason r)
        × (lookup w.event m3.wakers ≡ none)
        × (m3.woken ≡ w.waiter ∷ m2.woken)
  unfolding poll
  poll-notify_one w m es r g u a d =
      let m1 = record m { wakers = insert w.event w.waiter m.wakers } in
      let h : Alone w.event w.waiter (notify_each es m1) =
        notify_each-Alone w.event w.waiter es m1 d (insert-Alone w.event w.waiter m u a) in
      let n = notified w.event w.waiter r (notify_each es m1) h in
      rw g (ap poll_reason u, ap poll_reason h.1, h.0, n.0, ap poll_reason n.1, n.2, n.3)
