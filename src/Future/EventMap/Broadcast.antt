-- ===== src/Future/EventMap/Broadcast.antt =====
-- What the broadcasts of `EventMap`, crates/future/src/event_map.rs, do to those who wait.
use hala_rs.Base.{
  ℕ, ◌≡◌, ◌⊎◌, inl, inr, refl, Bool, true, false, none, some, List, [], ◌∷◌, map, arith, ==_iff,
  if◌then◌else◌, Option-cases, Bool-cases,
}
use hala_rs.Base.Maps.{Eq, lookup, lookup-remove}
use hala_rs.Future.EventMap.{Reason, EventMap, notify_one, notify_all, notify_any}

module _ {E : Type 0} ⦃eq : Eq E⦄ where
  abbrev is_named : E → List E → Bool
  is_named e [] = false
  is_named e (x ∷ xs) = let rest = is_named e xs in if eq.beq x e then true else rest

  pub lookup-notify_one :
      (e e' : E) (r : Reason) (m : EventMap E)
      → lookup e' (notify_one e r m).1.wakers ≡ (if eq.beq e e' then none else lookup e' m.wakers)
  unfolding notify_one
  lookup-notify_one e e' r m = elim (Option-cases (lookup e m.wakers)) [
    | inl u ↦ rw (notify_one, u) (ground (arith, u, eq.beq_iff e e'))
    | inr (w, u) ↦ rw (notify_one, u) (lookup-remove e e' m.wakers)
  ]

  reasons-notify_one :
      (e : E) (w : ℕ) (r : Reason) (m : EventMap E)
      → ((lookup e m.wakers ≡ some w) ⊎ (m.reasons w ≡ r))
      → (notify_one e r m).1.reasons w ≡ r
  unfolding notify_one
  reasons-notify_one e w r m h = elim (Option-cases (lookup e m.wakers)) [
    | inl u ↦ rw (notify_one, u) (ground (arith, u, h))
    | inr (w', u) ↦ rw (notify_one, u) (ground (arith, u, h, ==_iff w' w))
  ]

  reasons-other :
      (e : E) (w : ℕ) (r : Reason) (m : EventMap E)
      → m.reasons w ≡ r
      → (notify_one e r m).1.reasons w ≡ r
  reasons-other e w r m h = reasons-notify_one e w r m (inr h)

  lookup-notify_all :
      (e : E) (es : List E) (r : Reason) (m : EventMap E)
      → lookup e (notify_all es r m).wakers ≡ (if is_named e es then none else lookup e m.wakers)
  unfolding notify_all
  lookup-notify_all e [] r m = refl
  lookup-notify_all e (x ∷ es) r m =
      ground (arith, lookup-notify_all e es r (notify_one x r m).1, lookup-notify_one x e r m)

  kept-notify_all :
      (w : ℕ) (es : List E) (r : Reason) (m : EventMap E)
      → m.reasons w ≡ r
      → (notify_all es r m).reasons w ≡ r
  unfolding notify_all
  kept-notify_all w [] r m h = h
  kept-notify_all w (x ∷ es) r m h =
      kept-notify_all w es r (notify_one x r m).1 (reasons-other x w r m h)

  reasons-notify_all :
      (e : E) (w : ℕ) (es : List E) (r : Reason) (m : EventMap E)
      → is_named e es ≡ true
      → lookup e m.wakers ≡ some w
      → (notify_all es r m).reasons w ≡ r
  unfolding notify_all
  reasons-notify_all e w [] r m u h = cc
  reasons-notify_all e w (x ∷ es) r m u h = elim (Bool-cases (eq.beq x e)) [
    | inl v ↦
        kept-notify_all w es r (notify_one x r m).1
          (reasons-notify_one x w r m (inl (rw ((eq.beq_iff x e).0 v) h)))
    | inr v ↦
        reasons-notify_all e w es r (notify_one x r m).1 (ground (arith, u, v))
          (ground (arith, lookup-notify_one x e r m, v, h))
  ]

  named-lookup :
      (e : E) (ws : List (E × ℕ)) → is_named e (map (λ p. p.0) ws) ≡ false → lookup e ws ≡ none
  unfolding lookup
  named-lookup e [] u = refl
  named-lookup e ((x, w) ∷ ws) u = ground (arith, u, named-lookup e ws)

  -- `notify_any` takes every waiter out of the map, and leaves each the reason that it was called
  -- with.
  pub notify_any_lem :
      (r : Reason) (m : EventMap E) (e : E)
      → let m' = notify_any r m in
        (lookup e m'.wakers ≡ none) × ((w : ℕ) → lookup e m.wakers ≡ some w → m'.reasons w ≡ r)
  unfolding notify_any
  notify_any_lem r m e =
      let keys = map (λ p. p.0) m.wakers in
      elim (Bool-cases (is_named e keys)) [
        | inl u ↦ (
          ground (arith, u, lookup-notify_all e keys r m),
          λ w h. reasons-notify_all e w keys r m u h,
        )
        | inr u ↦ (
          ground (arith, u, lookup-notify_all e keys r m, named-lookup e m.wakers u),
          λ w h. ground (arith, h, named-lookup e m.wakers u),
        )
      ]
