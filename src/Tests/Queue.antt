-- ===== src/Tests/Queue.antt =====
-- The theorems on crates/lockfree/src/queue.rs in a run of two threads: thread 0 pushes, and thread 1
-- pops.
use hala_rs.Base.{
  ℕ, ◌==◌, false, ◌<◌, ◌≡◌, inl, refl, none, some, [], ◌∷◌, arith, update, get_elem?,
}
use hala_rs.Lockfree.Queue.{
  Queue, Pc, idle, inserting, popping, loaded_head, loaded_tail, removing, fetch_add, insert,
  call_pop, load_head, load_tail, exchange, System, init, run, Reach, start, later,
}
use hala_rs.Lockfree.Queue.Present.{Held}
use hala_rs.Lockfree.Queue.Refinement.{Step-Act, Act, view}
use hala_rs.Lockfree.Queue.Fifo.{pop_takes_in_order, pop_waits_for_push}

abbrev after : {A : Type 0} → System A → ℕ → Queue A → Pc A → System A
after s t q p = record { queue = q; pc = update s.pc t p }

abbrev added : System ℕ
added =
    after (init ℕ) 0 (record { head = 0; tail = 1; slots = λ _. none; order = 9 ∷ [] })
      (inserting 0 9)

abbrev called : System ℕ
called = after added 1 added.queue popping

abbrev head_read : System ℕ
head_read = after called 1 called.queue (loaded_head 0)

abbrev tail_read : System ℕ
tail_read = after head_read 1 head_read.queue (loaded_tail 0 1)

abbrev claimed : System ℕ
claimed =
    after tail_read 1 (record { head = 1; tail = 1; slots = λ _. none; order = 9 ∷ [] })
      (removing 0)

abbrev stored : System ℕ
stored =
    after claimed 0
      (record { head = 1; tail = 1; slots = update (λ _. none) 0 (some 9); order = 9 ∷ [] }) idle

head_read-Reach : Reach head_read
head_read-Reach =
    later (later (later start (run 0 (fetch_add 9))) (run 1 call_pop)) (run 1 load_head)

claimed-Reach : Reach claimed
claimed-Reach =
    later (later head_read-Reach (run 1 load_tail))
      (run 1 (exchange (λ e. absurd (omega (arith, e))) refl))

stored-Reach : Reach stored
stored-Reach = later claimed-Reach (run 0 insert)

pop_takes_in_order_example :
    (get_elem? stored.queue.order 0 ≡ some 9)
    × (0 < stored.queue.head)
    × ((u : ℕ) → stored.pc u ≡ removing 0 → u ≡ 1)
pop_takes_in_order_example = pop_takes_in_order stored-Reach 1 0 9 refl refl

pop_waits_for_push_example : Held claimed.queue claimed.pc 0
pop_waits_for_push_example = pop_waits_for_push claimed-Reach 0 (inl (1, refl))

Step-Act_example :
    (t : ℕ) × Act
      (9 ∷ [])
      (view tail_read.queue (tail_read.pc t))
      []
      (view claimed.queue (claimed.pc t))
    × ((v : ℕ)
        → (t == v) ≡ false
        → view claimed.queue (claimed.pc v) ≡ view tail_read.queue (tail_read.pc v))
Step-Act_example =
    Step-Act (later head_read-Reach (run 1 load_tail))
      (run 1 (exchange (λ e. absurd (omega (arith, e))) refl))
