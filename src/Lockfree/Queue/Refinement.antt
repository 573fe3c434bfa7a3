-- ===== src/Lockfree/Queue/Refinement.antt =====
-- The queue of crates/lockfree/src/queue.rs refines a queue whose operations take effect at once,
-- between their call and their return.
use hala_rs.Base.{
  ℕ, zero, suc, true, false, ◌+◌, ◌≤◌, ◌<◌, ◌≡◌, inl, inr, refl, Option, none, some, List, [], ◌∷◌,
  ◌++◌, arith, drop, length, get_elem?, get_elem?-snoc, if◌then◌else◌, ◌==◌, ==_self, Bool-cases,
}
use hala_rs.Lockfree.Queue.{
  Queue, Pc, idle, inserting, popping, loaded_head, loaded_tail, removing, returning, Move,
  fetch_add, insert, call_pop, load_head, load_tail, empty, exchange, exchange_fails, remove,
  remove_fails, return, load_len, measure, measure_overflows, return_len, System, Step, run, Reach,
}
use hala_rs.Lockfree.Queue.Invariant.{Inv, Knows, Reach-Inv}

-- Where a caller of the abstract queue stands.
pub data Call (A : Type 0) : Type 0 where
  ready : Call A
  pushing : Call A
  taking : Call A  -- `pop` has yet to take effect
  answering : (result : Option A) → Call A

module _ {A : Type 0} where
  -- What one caller does to the list of the queued values.
  pub data Act (xs : List A) : Call A → List A → Call A → Type 0 where
    enqueue : (v : A) → Act xs ready (xs ++ (v ∷ [])) pushing
    push_returns : Act xs pushing xs ready
    asks : Act xs ready xs taking
    dequeue : {v : A} {ys : List A} → xs ≡ v ∷ ys → Act xs taking ys (answering (some v))
    finds_empty : xs ≡ [] → Act xs taking xs (answering none)
    pop_returns : {r : Option A} → Act xs (answering r) xs ready
    waits : {c : Call A} → Act xs c xs c

  -- The queued values: those pushed and not yet claimed.
  abbrev pub contents : Queue A → List A
  contents q = drop q.head q.order

  -- A `pop` has taken effect when its exchange succeeded, or when it loaded a tail at its head.
  abbrev pub view : Queue A → Pc A → Call A
  view q idle = ready
  view q (inserting i v) = pushing
  view q popping = taking
  view q (loaded_head h) = taking
  view q (loaded_tail h t) = if h == t then answering none else taking
  view q (removing i) = answering (get_elem? q.order i)
  view q (returning r) = answering r
  view q _ = ready

  drop-snoc :
      (n : ℕ) (xs : List A) (v : A)
      → n ≤ length xs
      → drop n (xs ++ (v ∷ [])) ≡ drop n xs ++ (v ∷ [])
  drop-snoc zero xs v h = refl
  drop-snoc (suc n) [] v h = absurd (omega arith)
  drop-snoc (suc n) (x ∷ xs) v h = drop-snoc n xs v (omega arith)

  drop-length : (n : ℕ) (xs : List A) → n ≡ length xs → drop n xs ≡ []
  drop-length zero [] h = refl
  drop-length zero (x ∷ xs) h = absurd (omega arith)
  drop-length (suc n) [] h = refl
  drop-length (suc n) (x ∷ xs) h = drop-length n xs (omega arith)

  drop-head :
      (n : ℕ) (xs : List A)
      → n < length xs
      → (v : A) × (get_elem? xs n ≡ some v) × (drop n xs ≡ v ∷ drop (suc n) xs)
  drop-head n [] h = absurd (omega arith)
  drop-head zero (x ∷ xs) h = (x, refl, refl)
  drop-head (suc n) (x ∷ xs) h = drop-head n xs (omega arith)

  Move-Act :
      {q q' : Queue A} {p p' : Pc A} {pc : ℕ → Pc A}
      → Move q p q' p'
      → Inv q pc
      → Knows q p
      → Act (contents q) (view q p) (contents q') (view q' p')
  Move-Act {q = q} (fetch_add v) inv k =
      rw (drop-snoc q.head q.order v (omega (arith, inv.counted, inv.ordered))) (enqueue v)
  Move-Act insert inv k = push_returns
  Move-Act call_pop inv k = asks
  Move-Act load_head inv k = waits
  Move-Act {q = q} (load_tail {h = h}) inv k = elim (Bool-cases (h == q.tail)) [
    | inl e ↦
        rw e (
          finds_empty (drop-length q.head q.order (ground (arith, e, k, inv.counted, inv.ordered))))
    | inr e ↦ rw e waits
  ]
  Move-Act (empty {h = h} {t = t} e) inv k =
      let same : (h == t) ≡ true = ground arith in rw same waits
  Move-Act {q = q} (exchange {h = h} {t = t} d e) inv k =
      let differ : (h == t) ≡ false = ground arith in
      let (v, at, split) = drop-head h q.order (ground (arith, d, e, k, inv.counted)) in
      let next : h + 1 ≡ suc h = omega arith in rw differ (rw e (rw at (rw next (dequeue split))))
  Move-Act (exchange_fails {h = h} {t = t} d e) inv k =
      let differ : (h == t) ≡ false = ground arith in rw differ waits
  Move-Act (remove {i = i} {v = v} e) inv k = rw (inv.stored i v e).0 waits
  Move-Act (remove_fails e) inv k = waits
  Move-Act return inv k = pop_returns
  Move-Act load_len inv k = waits
  Move-Act (measure l) inv k = waits
  Move-Act (measure_overflows l) inv k = waits
  Move-Act return_len inv k = waits

  Move-view :
      {q q' : Queue A} {p p' : Pc A} {pc : ℕ → Pc A} (r : Pc A)
      → Move q p q' p'
      → Inv q pc
      → Knows q r
      → view q' r ≡ view q r
  Move-view {q = q} (removing i) (fetch_add v) inv k =
      ground (arith, inv.counted, inv.ordered, k, get_elem?-snoc q.order v i)
  Move-view r mv inv k = refl

-- The queue is linearizable: under every interleaving, each access of a thread is one act, or none,
-- of that thread on the list of the values that are pushed and not yet claimed, and leaves every
-- other thread where it stands. A value enters the list at its end in the `fetch_add` of `push`; it
-- leaves the list at its head, for the `pop` that answers with it, in the exchange; and `pop`
-- answers `None` for a list that was empty when it loaded the tail.
pub Step-Act :
    {A : Type 0} {s u : System A}
    → Reach s
    → Step s u
    → (t : ℕ) × Act
        (contents s.queue)
        (view s.queue (s.pc t))
        (contents u.queue)
        (view u.queue (u.pc t))
      × ((v : ℕ) → (t == v) ≡ false → view u.queue (u.pc v) ≡ view s.queue (s.pc v))
Step-Act {s = s} r (run t mv) =
    let inv = Reach-Inv r in
    (
      t,
      rw (==_self t) (Move-Act mv inv (inv.knows t)),
      λ v d. rw d (Move-view (s.pc v) mv inv (inv.knows v)),
    )
