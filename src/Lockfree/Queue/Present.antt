-- ===== src/Lockfree/Queue/Present.antt =====
-- Every value that the queue of crates/lockfree/src/queue.rs still owes is at hand: it stands in its
-- slot, or its `push` is about to put it there.
use hala_rs.Base.{ℕ, ◌≤◌, ◌<◌, ◌≡◌, ◌≢◌, ◌⊎◌, inl, inr, refl, some, arith, update, ◌==◌, Bool-cases}
use hala_rs.Lockfree.Queue.{
  Queue, Pc, inserting, removing, Move, fetch_add, insert, exchange, remove, call_pop, remove_fails,
  System, Step, run, Reach, start, later,
}
use hala_rs.Lockfree.Queue.Invariant.{Inv, Reach-Inv}

module _ {A : Type 0} where
  -- The value of index `i` is stored, or a thread is about to store it.
  abbrev pub Held : Queue A → (ℕ → Pc A) → ℕ → Type 0
  Held q pc i = ((v : A) × (q.slots i ≡ some v)) ⊎ ((u : ℕ) × (v : A) × (pc u ≡ inserting i v))

  pub record Present (q : Queue A) (pc : ℕ → Pc A) : Type 0 where
    pub queued : (i : ℕ) → q.head ≤ i → i < q.tail → Held q pc i
    pub claimed : (a i : ℕ) → pc a ≡ removing i → Held q pc i

  module _ {q : Queue A} {pc : ℕ → Pc A} (inv : Inv q pc) (t : ℕ) where
    -- A move keeps what is held, but for the removal of the value itself.
    Move-Held :
        {p p' : Pc A} {q' : Queue A}
        → Move q p q' p'
        → pc t ≡ p
        → (i : ℕ) → p ≢ removing i
        → Held q pc i
        → Held q' (update pc t p') i
    Move-Held (insert {i = j} {v = v}) at i n (inl (w, e)) = elim (Bool-cases (j == i)) [
      | inl s ↦ inl (v, rw s)
      | inr d ↦ inl (w, rw d e)
    ]
    Move-Held (insert {i = j} {v = v}) at i n (inr (u, w, e)) = elim (Bool-cases (j == i)) [
      | inl s ↦ inl (v, rw s)
      | inr d ↦ inr (u, w, ground arith)
    ]
    Move-Held (remove {i = j} g) at i n (inl (w, e)) = inl (w, ground (arith, n))
    Move-Held mv at i n (inl h) = inl h
    Move-Held mv at i n (inr (u, w, e)) = inr (u, w, ground arith)

    open inv use {counted, ordered, stored, knows, one_pusher, one_popper}

    not_removing : {p : Pc A} → pc t ≡ p → (i : ℕ) → q.head ≤ i → p ≢ removing i
    not_removing at i h e = ground (arith, knows t)

    Move-queued :
        {p p' : Pc A} {q' : Queue A}
        → Move q p q' p'
        → pc t ≡ p
        → ((i : ℕ) → q.head ≤ i → i < q.tail → Held q pc i)
        → (i : ℕ) → q'.head ≤ i
        → i < q'.tail
        → Held q' (update pc t p') i
    Move-queued (fetch_add v) at h i low high = elim (Bool-cases (q.tail == i)) [
      | inl e ↦ inr (t, v, ground arith)
      | inr e ↦ Move-Held (fetch_add v) at i (not_removing at i low) (h i low (ground arith))
    ]
    Move-queued (exchange d g) at h i low high =
        Move-Held (exchange d g) at i (λ e. cc) (h i (omega arith) high)
    Move-queued insert at h i low high =
        Move-Held insert at i (not_removing at i low) (h i low high)
    Move-queued mv at h i low high = Move-Held mv at i (not_removing at i low) (h i low high)

    Move-claimed :
        {p p' : Pc A} {q' : Queue A}
        → Move q p q' p'
        → pc t ≡ p
        → Present q pc
        → (a i : ℕ) → update pc t p' a ≡ removing i
        → Held q' (update pc t p') i
    Move-claimed (exchange d g) at h a i e = elim (Bool-cases (t == a)) [
      | inl s ↦
          Move-Held (exchange d g) at i (λ f. cc)
            (h.queued i (ground arith) (ground (arith, knows t)))
      | inr s ↦ Move-Held (exchange d g) at i (λ f. cc) (h.claimed a i (ground arith))
    ]
    Move-claimed (remove_fails g) at h a i e =
        let self : Held q pc i = h.claimed a i (ground arith) in
        elim self [ inl s ↦ inl s | inr (u, v, f) ↦ inr (u, v, ground arith) ]
    Move-claimed call_pop at h a i e =
        Move-Held call_pop at i (λ f. cc) (h.claimed a i (ground arith))
    Move-claimed mv at h a i e =
        Move-Held mv at i (λ f. ground (arith, one_popper t a i)) (h.claimed a i (ground arith))

  Step-Present :
      {s u : System A} → Step s u → Inv s.queue s.pc → Present s.queue s.pc → Present u.queue u.pc
  Step-Present (run t mv) inv h = record {
    queued = Move-queued inv t mv refl h.queued;
    claimed = Move-claimed inv t mv refl h;
  }

  pub Reach-Present : {s : System A} → Reach s → Present s.queue s.pc
  Reach-Present start = record { queued = λ i l m. absurd (omega arith); claimed = λ a i e. cc }
  Reach-Present (later r st) = Step-Present st (Reach-Inv r) (Reach-Present r)
