-- ===== src/Lockfree/Queue/Invariant.antt =====
-- The invariant of the queue of crates/lockfree/src/queue.rs under every interleaving.
use hala_rs.Base.{
  ℕ, ◌+◌, ◌≤◌, ◌<◌, ◌≡◌, inl, inr, refl, none, some, [], ◌∷◌, ◌++◌, arith, length, length-append,
  get_elem?, get_elem?-snoc, update, Option-cases, Bool-cases, ◌==◌, ==_self,
}
use hala_rs.Lockfree.Queue.{
  Queue, Pc, inserting, loaded_head, loaded_tail, removing, Move, fetch_add, insert, exchange,
  remove, remove_fails, load_head, load_tail, System, init, Step, run, Reach, start, later,
}

module _ {A : Type 0} where
  -- What the locals of a thread say about the queue.
  abbrev pub Knows : Queue A → Pc A → Type 0
  Knows q (inserting i v) = (get_elem? q.order i ≡ some v) × (q.slots i ≡ none) × (i < q.tail)
  Knows q (loaded_head h) = h ≤ q.head
  Knows q (loaded_tail h t) = (h ≤ q.head) × (h ≤ t) × (t ≤ q.tail)
  Knows q (removing i) = i < q.head
  Knows q _ = Unit

  pub record Inv (q : Queue A) (pc : ℕ → Pc A) : Type 0 where
    pub counted : length q.order ≡ q.tail
    pub ordered : q.head ≤ q.tail
    pub stored :
        (i : ℕ) (v : A) → q.slots i ≡ some v → (get_elem? q.order i ≡ some v) × (i < q.tail)
    pub knows : (t : ℕ) → Knows q (pc t)
    pub one_pusher : (t u i : ℕ) (v w : A) → pc t ≡ inserting i v → pc u ≡ inserting i w → t ≡ u
    pub one_popper : (t u i : ℕ) → pc t ≡ removing i → pc u ≡ removing i → t ≡ u

  init-Inv : Inv (init A).queue (init A).pc
  init-Inv = record {
    counted = refl;
    ordered = omega arith;
    stored = λ i v e. cc;
    knows = λ t. tt;
    one_pusher = λ t u i v w e f. cc;
    one_popper = λ t u i e f. cc;
  }

  module _ {q : Queue A} {pc : ℕ → Pc A} (inv : Inv q pc) (t : ℕ) where
    open inv use {counted, ordered, stored, knows, one_pusher, one_popper}

    Move-counts :
        {p p' : Pc A} {q' : Queue A}
        → Move q p q' p'
        → Knows q p
        → (length q'.order ≡ q'.tail) × (q'.head ≤ q'.tail)
    Move-counts (fetch_add v) k = omega (arith, counted, ordered, length-append q.order (v ∷ []))
    Move-counts insert k = omega (arith, counted, ordered)
    Move-counts (exchange d e) k = ground (arith, counted, ordered)
    Move-counts mv k = (ground (arith, counted), ground (arith, ordered))

    Move-stored :
        {p p' : Pc A} {q' : Queue A}
        → Move q p q' p'
        → Knows q p
        → (i : ℕ) (v : A) → q'.slots i ≡ some v
        → (get_elem? q'.order i ≡ some v) × (i < q'.tail)
    Move-stored (fetch_add v) k i w e =
        ground (arith, counted, stored i w, get_elem?-snoc q.order v i)
    Move-stored (insert {i = j} {v = v}) k i w e = ground (arith, stored i w)
    Move-stored (remove g) k i w e = ground (arith, stored i w)
    Move-stored mv k i w e = stored i w e

    Move-one_pusher :
        {p p' : Pc A} {q' : Queue A}
        → Move q p q' p'
        → pc t ≡ p
        → (a b i : ℕ) (v w : A) → update pc t p' a ≡ inserting i v
        → update pc t p' b ≡ inserting i w
        → a ≡ b
    Move-one_pusher (fetch_add x) at a b i v w e f =
        ground (arith, one_pusher a b i v w, knows a, knows b)
    Move-one_pusher mv at a b i v w e f = ground (arith, one_pusher a b i v w)

    Move-one_popper :
        {p p' : Pc A} {q' : Queue A}
        → Move q p q' p'
        → pc t ≡ p
        → (a b i : ℕ) → update pc t p' a ≡ removing i
        → update pc t p' b ≡ removing i
        → a ≡ b
    Move-one_popper (exchange d h) at a b i e f = ground (arith, one_popper a b i, knows a, knows b)
    Move-one_popper (remove_fails g) at a b i e f = ground (arith, one_popper a b i)
    Move-one_popper mv at a b i e f = ground (arith, one_popper a b i)

    tail_free : q.slots q.tail ≡ none
    tail_free = elim (Option-cases (q.slots q.tail)) [
      | inl e ↦ e
      | inr (v, e) ↦ absurd (omega (arith, (stored q.tail v e).1))
    ]

    Knows-fetch_add :
        (v : A) (p : Pc A)
        → Knows q p
        → Knows (record q { tail = q.tail + 1; order = q.order ++ (v ∷ []) }) p
    Knows-fetch_add v (inserting i w) k = ground (arith, counted, get_elem?-snoc q.order v i)
    Knows-fetch_add v p k = ground arith

    Knows-insert :
        (j : ℕ) (v : A) (p : Pc A)
        → ((w : A) → p ≡ inserting j w → ⊥)
        → Knows q p
        → Knows (record q { slots = update q.slots j (some v) }) p
    Knows-insert j v (inserting i w) other k = ground (arith, other w)
    Knows-insert j v p other k = ground arith

    Move-Knows :
        {p p' : Pc A} {q' : Queue A}
        → Move q p q' p'
        → pc t ≡ p
        → (a : ℕ) → Knows q' (update pc t p' a)
    Move-Knows (fetch_add v) at a = ground (
      arith,
      Knows-fetch_add v (pc a) (knows a),
      counted,
      get_elem?-snoc q.order v q.tail,
      tail_free,
    )
    Move-Knows (insert {i = j} {v = v}) at a = elim (Bool-cases (t == a)) [
      | inl e ↦ rw e tt
      | inr e ↦
          rw e (
            Knows-insert j v (pc a) (λ w f. cc (one_pusher t a j v w at f, ==_self a, e)) (knows a))
    ]
    Move-Knows load_head at a = ground (arith, knows a)
    Move-Knows load_tail at a = ground (arith, knows a, knows t, ordered)
    Move-Knows (exchange d e) at a = ground (arith, knows a, knows t)
    Move-Knows (remove g) at a = ground (arith, knows a)
    Move-Knows mv at a = ground (arith, knows a)

    pub Move-Inv : {p' : Pc A} {q' : Queue A} → Move q (pc t) q' p' → Inv q' (update pc t p')
    Move-Inv mv = record {
      counted = (Move-counts mv (knows t)).0;
      ordered = (Move-counts mv (knows t)).1;
      stored = Move-stored mv (knows t);
      knows = Move-Knows mv refl;
      one_pusher = Move-one_pusher mv refl;
      one_popper = Move-one_popper mv refl;
    }

  pub Step-Inv : {s u : System A} → Step s u → Inv s.queue s.pc → Inv u.queue u.pc
  Step-Inv (run t mv) inv = Move-Inv inv t mv

  pub Reach-Inv : {s : System A} → Reach s → Inv s.queue s.pc
  Reach-Inv start = init-Inv
  Reach-Inv (later r st) = Step-Inv st (Reach-Inv r)
