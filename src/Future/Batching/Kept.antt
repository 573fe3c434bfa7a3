-- ===== src/Future/Batching/Kept.antt =====
-- No future of crates/future/src/batching.rs is lost.
use hala_rs.Base.{
  ℕ, ◌<◌, ◌≡◌, ◌⊎◌, inl, inr, Bool, true, false, some, arith, update, Bool-cases, ◌==◌, ==_self,
  ==_iff, sym,
}
use hala_rs.Base.Sets.{contains}
use hala_rs.Future.Batching.{
  FutureBatcher, Pc, inserting, polling, storing, Move, push, insert, remove, store, poll_ready,
  System, run, Reach, start, later,
}

module _ {F R : Type 0} where
  -- The thread has the future in its hands.
  abbrev pub holds : ℕ → Pc F R → Bool
  holds i (inserting j f) = j == i
  holds i (polling w j f) = j == i
  holds i (storing w j f) = j == i
  holds i _ = false

  abbrev pub Kept : FutureBatcher F → (ℕ → Pc F R) → ℕ → Type 0
  Kept b pc i =
      ((f : F) × (b.pending_futures i ≡ some f))
      ⊎ ((contains i b.finished ≡ true) ⊎ ((u : ℕ) × (holds i (pc u) ≡ true)))

  Move-holds :
      {b b' : FutureBatcher F} {p p' : Pc F R}
      → Move b p b' p'
      → (i : ℕ) → holds i p ≡ true
      → (holds i p' ≡ true)
        ⊎ ((contains i b'.finished ≡ true) ⊎ ((f : F) × (b'.pending_futures i ≡ some f)))
  Move-holds (insert {f = f}) i e = inr (inr (f, ground (arith, e)))
  Move-holds (store {f = f}) i e = inr (inr (f, ground (arith, e)))
  Move-holds (poll_ready r) i e = inr (inl (ground (arith, e)))
  Move-holds mv i e = ground (arith, e)

  Move-finished :
      {b b' : FutureBatcher F} {p p' : Pc F R}
      → Move b p b' p'
      → (i : ℕ) → contains i b.finished ≡ true
      → contains i b'.finished ≡ true
  Move-finished (poll_ready r) i e = ground (arith, e)
  Move-finished mv i e = e

  Move-stored :
      {b b' : FutureBatcher F} {p p' : Pc F R}
      → Move b p b' p'
      → (i : ℕ) (f : F) → b.pending_futures i ≡ some f
      → ((g : F) × (b'.pending_futures i ≡ some g)) ⊎ (holds i p' ≡ true)
  Move-stored (insert {i = j} {f = g}) i f e = elim (Bool-cases (j == i)) [
    | inl s ↦ inl (g, rw s)
    | inr s ↦ inl (f, rw s e)
  ]
  Move-stored (store {i = j} {f = g}) i f e = elim (Bool-cases (j == i)) [
    | inl s ↦ inl (g, rw s)
    | inr s ↦ inl (f, rw s e)
  ]
  Move-stored (remove {i = j} g) i f e = elim (Bool-cases (j == i)) [
    | inl s ↦ inr s
    | inr s ↦ inl (f, rw s e)
  ]
  Move-stored mv i f e = inl (f, e)

  Move-idgen :
      {b b' : FutureBatcher F} {p p' : Pc F R}
      → Move b p b' p'
      → (i : ℕ) → i < b'.idgen
      → (i < b.idgen) ⊎ (holds i p' ≡ true)
  Move-idgen (push f) i l = ground arith
  Move-idgen mv i l = inl l

  module _ {b b' : FutureBatcher F} (pc : ℕ → Pc F R) {p' : Pc F R} (t : ℕ)
      (mv : Move b (pc t) b' p') where
    self_holds : (i : ℕ) → holds i p' ≡ true → Kept b' (update pc t p') i
    self_holds i e = inr (inr (t, rw (==_self t) e))

    Move-Kept : (i : ℕ) → Kept b pc i → Kept b' (update pc t p') i
    Move-Kept i (inl (f, e)) = elim (Move-stored mv i f e) [
      | inl g ↦ inl g
      | inr h ↦ self_holds i h
    ]
    Move-Kept i (inr (inl e)) = inr (inl (Move-finished mv i e))
    Move-Kept i (inr (inr (u, e))) = elim (Bool-cases (t == u)) [
      | inr d ↦ inr (inr (u, rw d e))
      | inl s ↦ elim (Move-holds mv i (rw (sym ((==_iff t u).0 s)) at e)) [
        | inl h ↦ self_holds i h
        | inr (inl d) ↦ inr (inl d)
        | inr (inr g) ↦ inl g
      ]
    ]

-- No future is lost: under every interleaving, closing included, a future that was given an id is
-- among the pending ones, or was ready, or is in the hands of a thread that pushes or polls it.
pub no_future_lost :
    {F R : Type 0} {s : System F R} → Reach s → (i : ℕ) → i < s.batch.idgen → Kept s.batch s.pc i
no_future_lost start i l = absurd (omega arith)
no_future_lost (later {s = s} r (run t mv)) i l = elim (Move-idgen mv i l) [
  | inl m ↦ Move-Kept s.pc t mv i (no_future_lost r i m)
  | inr h ↦ self_holds s.pc t mv i h
]
