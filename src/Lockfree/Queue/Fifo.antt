-- ===== src/Lockfree/Queue/Fifo.antt =====
-- What the queue of crates/lockfree/src/queue.rs promises its threads.
use hala_rs.Base.{ℕ, ◌+◌, ◌≤◌, ◌<◌, ◌≡◌, ◌⊎◌, inl, inr, refl, none, some, arith, get_elem?}
use hala_rs.Lockfree.Queue.{
  Queue, Pc, loaded_head, removing, Move, exchange, remove_fails, System, Reach,
}
use hala_rs.Lockfree.Queue.Invariant.{Reach-Inv, Knows}
use hala_rs.Lockfree.Queue.Present.{Held, Reach-Present}

-- The thread that the claim of an index for `pop` makes the owner of the value with that place in
-- the order of pushes, and nobody else: under every interleaving, a thread that is about to remove
-- index `i` finds there only the value pushed as number `i`, which lies in front of the head, and no
-- other thread is about to remove `i`.
pub pop_takes_in_order :
    {A : Type 0} {s : System A}
    → Reach s
    → (t i : ℕ) (v : A) → s.pc t ≡ removing i
    → s.queue.slots i ≡ some v
    → (get_elem? s.queue.order i ≡ some v)
      × (i < s.queue.head)
      × ((u : ℕ) → s.pc u ≡ removing i → u ≡ t)
pop_takes_in_order {s = s} r t i v e f =
    let inv = Reach-Inv r in
    ((inv.stored i v f).0, rw e at (inv.knows t), λ u g. inv.one_popper u t i g e)

claims :
    {A : Type 0} {i : ℕ} {q0 q : Queue A} {p p' : Pc A}
    → Move q0 p q p'
    → p' ≡ removing i
    → Knows q0 p
    → ((q0.slots i ≡ none) × (p ≡ removing i))
      ⊎ ((i ≡ q0.head) × (q.head ≡ q0.head + 1) × (i < q0.tail))
claims (exchange d g) e k = inr (ground arith)
claims (remove_fails g) e k = inl (ground arith)
claims mv e k = absurd (cc)

-- The claims follow one another without a gap: a successful exchange in `pop` claims the index at
-- the head, which had been pushed, and moves the head by one.
pub exchange_claims_head :
    {A : Type 0} {s : System A}
    → Reach s
    → (t i : ℕ) (q : Queue A) → Move s.queue (s.pc t) q (removing i)
    → ((s.queue.slots i ≡ none) × (s.pc t ≡ removing i))
      ⊎ ((i ≡ s.queue.head) × (q.head ≡ s.queue.head + 1) × (i < s.queue.tail))
exchange_claims_head r t i q mv = claims mv refl ((Reach-Inv r).knows t)

-- `pop` returns `None` only from a loaded pair of equal indices; when it loads such a tail, the
-- queue is empty.
pub pop_none_on_empty :
    {A : Type 0} {s : System A}
    → Reach s
    → (t h : ℕ) → s.pc t ≡ loaded_head h
    → h ≡ s.queue.tail
    → s.queue.head ≡ s.queue.tail
pop_none_on_empty {s = s} r t h e f =
    let inv = Reach-Inv r in
    let k : h ≤ s.queue.head = rw e at (inv.knows t) in omega (arith, k, f, inv.ordered)

-- The loop of `spin_pop_by_offset` waits only for a `push` under way: under every interleaving, the
-- value of an index that a thread is about to remove is stored, or a thread is about to store it;
-- and so is every value between head and tail.
pub pop_waits_for_push :
    {A : Type 0} {s : System A}
    → Reach s
    → (i : ℕ) → ((t : ℕ) × (s.pc t ≡ removing i)) ⊎ ((s.queue.head ≤ i) × (i < s.queue.tail))
    → Held s.queue s.pc i
pop_waits_for_push r i (inl (t, e)) = (Reach-Present r).claimed t i e
pop_waits_for_push r i (inr (low, high)) = (Reach-Present r).queued i low high
