-- ===== src/Udp/Group/Calls.antt =====
-- The calls of crates/net/udp/src/group.rs.
use hala_rs.Base.{
  ℕ, ◌≡◌, ◌⊎◌, inl, inr, refl, sym, ◌∙◌, Option, none, some, List, [], ◌∷◌, ◌++◌, Outcome, ok, err,
  Bool-cases, ◌==◌, ==_iff,
}
use hala_rs.Base.Maps.{Nat-Eq, lookup, insert, remove, lookup-insert, lookup-remove}
use hala_rs.Io.Error.{ErrorKind, would_block}
use hala_rs.Io.ReadBuf.{Bytes}
use hala_rs.Udp.Group.{
  PathInfo, UdpGroup, Polled, pending, ready, poll_task, go_on, wait, after_read, after_write,
  recv_from, send_to, sent_to, read_path, write_path,
}

abbrev pub Answers : Type 0 → Type 0
Answers Addr = List (ℕ × Outcome ErrorKind (ℕ × PathInfo Addr))

module _ {Addr : Type 0} where
  abbrev pub answer :
      (Addr → Addr → PathInfo Addr) → ℕ → Option Addr → Outcome ErrorKind (ℕ × Addr) → Answers Addr
  answer path h none r = []
  answer path h (some laddr) (ok (n, raddr)) = (h, ok (n, path laddr raddr)) ∷ []
  answer path h (some laddr) (err would_block) = []
  answer path h (some laddr) (err e) = (h, err e) ∷ []

  -- Every answer of the driver that ends a wait, in order.
  abbrev pub answers :
      (Addr → Addr → PathInfo Addr)
      → List (ℕ × Addr)
      → List (ℕ × Outcome ErrorKind (ℕ × Addr))
      → Answers Addr
  answers path tasks [] = []
  answers path tasks ((h, r) ∷ polls) = answer path h (lookup h tasks) r ++ answers path tasks polls

  abbrev pub first : Answers Addr → Polled Addr
  first [] = pending
  first ((h, r) ∷ ps) = ready h r

  abbrev pub buffer_left : {B : Type 0} → B → Answers Addr → Option B
  buffer_left b [] = some b
  buffer_left b (p ∷ ps) = none

  -- The operations of the batchers have the addresses of the group.
  abbrev pub Agrees : List (ℕ × Addr) → List (ℕ × Addr) → Type 0
  Agrees tasks laddrs = (h : ℕ) (a : Addr) → lookup h tasks ≡ some a → lookup h laddrs ≡ some a

  go_on_lem :
      {B : Type 0} (path : Addr → Addr → PathInfo Addr) (h : ℕ) (o : Option Addr) (b : B)
      (r : Outcome ErrorKind (ℕ × Addr)) (rest : Option B → Polled Addr × Option B)
      (ps : Answers Addr)
      → rest (some b) ≡ (first ps, buffer_left b ps)
      → go_on (poll_task path h o (some b) r) rest
        ≡ (first (answer path h o r ++ ps), buffer_left b (answer path h o r ++ ps))
  go_on_lem path h none b r rest ps e = e
  go_on_lem path h (some a) b (ok (n, raddr)) rest ps e = refl
  go_on_lem path h (some a) b (err would_block) rest ps e = e
  go_on_lem path h (some a) b (err k) rest ps e = refl

  wait_lem :
      {B : Type 0} (path : Addr → Addr → PathInfo Addr) (tasks : List (ℕ × Addr))
      (polls : List (ℕ × Outcome ErrorKind (ℕ × Addr))) (b : B)
      → wait path tasks polls (some b)
        ≡ (first (answers path tasks polls), buffer_left b (answers path tasks polls))
  wait_lem path tasks [] b = refl
  wait_lem path tasks ((h, r) ∷ polls) b =
      go_on_lem path h (lookup h tasks) b r (λ c. wait path tasks polls c)
        (answers path tasks polls) (wait_lem path tasks polls b)

  -- An operation that is pushed again is as it was.
  lookup-again :
      (h : ℕ) (a : Addr) (tasks : List (ℕ × Addr))
      → lookup h tasks ≡ some a
      → (k : ℕ) → lookup k (insert h a (remove h tasks)) ≡ lookup k tasks
  unfolding Nat-Eq lookup
  lookup-again h a tasks e k = elim (Bool-cases (h == k)) [
    | inl s ↦
        let p : h ≡ k = (==_iff h k).0 s in
        lookup-insert h k a (remove h tasks) ∙ rw s (sym (rw p at e))
    | inr d ↦ lookup-insert h k a (remove h tasks) ∙ rw d (lookup-remove h k tasks ∙ rw d refl)
  ]

  answer_task :
      (path : Addr → Addr → PathInfo Addr) (h : ℕ) (o : Option Addr)
      (r : Outcome ErrorKind (ℕ × Addr)) (rest ps : Answers Addr) {k : ℕ}
      {q : Outcome ErrorKind (ℕ × PathInfo Addr)}
      → answer path h o r ++ rest ≡ (k, q) ∷ ps
      → (rest ≡ (k, q) ∷ ps) ⊎ ((a : Addr) × ((o ≡ some a) × (h ≡ k)))
  answer_task path h none r rest ps e = inl e
  answer_task path h (some a) (ok (n, raddr)) rest ps e = inr (a, (refl, cc))
  answer_task path h (some a) (err would_block) rest ps e = inl e
  answer_task path h (some a) (err k) rest ps e = inr (a, (refl, cc))

  answers_task :
      (path : Addr → Addr → PathInfo Addr) (tasks : List (ℕ × Addr))
      (polls : List (ℕ × Outcome ErrorKind (ℕ × Addr))) (ps : Answers Addr) {k : ℕ}
      {q : Outcome ErrorKind (ℕ × PathInfo Addr)}
      → answers path tasks polls ≡ (k, q) ∷ ps
      → (a : Addr) × (lookup k tasks ≡ some a)
  answers_task path tasks [] ps e = cc
  answers_task path tasks ((h, r) ∷ polls) ps e =
      elim (answer_task path h (lookup h tasks) r (answers path tasks polls) ps e) [
        | inl f ↦ answers_task path tasks polls ps f
        | inr (a, (f, g)) ↦ (a, rw (sym g) f)
      ]

  -- The first answer is to an operation of the batcher.
  abbrev pub Asked : List (ℕ × Addr) → Answers Addr → Type 0
  Asked tasks [] = Unit
  Asked tasks ((h, r) ∷ ps) = (a : Addr) × (lookup h tasks ≡ some a)

  answers-Asked :
      (path : Addr → Addr → PathInfo Addr) (tasks : List (ℕ × Addr))
      (polls : List (ℕ × Outcome ErrorKind (ℕ × Addr))) (ps : Answers Addr)
      → answers path tasks polls ≡ ps
      → Asked tasks ps
  answers-Asked path tasks polls [] e = tt
  answers-Asked path tasks polls ((h, r) ∷ ps) e = answers_task path tasks polls ps e

  abbrev pub Kept : UdpGroup Addr → UdpGroup Addr → Type 0
  Kept g g' =
      (g'.laddrs ≡ g.laddrs)
      × (((k : ℕ) → lookup k g'.read_tasks ≡ lookup k g.read_tasks)
          × ((k : ℕ) → lookup k g'.write_tasks ≡ lookup k g.write_tasks))

  after_read_lem :
      (g : UdpGroup Addr) (b : Option ℕ) (ps : Answers Addr)
      → Agrees g.read_tasks g.laddrs
      → Asked g.read_tasks ps
      → let w = after_read (first ps) (record g { batching_read_buf = b }) in
        (w.0 ≡ first ps) × ((w.1.batching_read_buf ≡ b) × Kept g w.1)
  after_read_lem g b [] v t = (refl, (refl, (refl, (λ k. refl, λ k. refl))))
  after_read_lem g b ((h, r) ∷ ps) v (a, e) =
      rw (v h a e) (refl, (refl, (refl, (lookup-again h a g.read_tasks e, λ k. refl))))

  after_write_lem :
      (g : UdpGroup Addr) (b : Option (Bytes × Addr)) (ps : Answers Addr)
      → Agrees g.write_tasks g.laddrs
      → Asked g.write_tasks ps
      → let w = after_write (first ps) (record g { batching_write_buf = b }) in
        (w.0 ≡ first ps) × ((w.1.batching_write_buf ≡ b) × Kept g w.1)
  after_write_lem g b [] v t = (refl, (refl, (refl, (λ k. refl, λ k. refl))))
  after_write_lem g b ((h, r) ∷ ps) v (a, e) =
      rw (v h a e) (refl, (refl, (refl, (λ k. refl, lookup-again h a g.write_tasks e))))

-- Where the read operations have the addresses of the group, none of the assertions of `recv_from`
-- fails: it ends with the first answer of the driver that is not `WouldBlock`, the address of the
-- socket in its path, and the buffer has then been taken; if all would block, it waits and the buffer
-- is in its place. Each socket has the operations it had.
pub recv_from_lem :
    {Addr : Type 0} (g : UdpGroup Addr) (ptr : ℕ) (polls : List (ℕ × Outcome ErrorKind (ℕ × Addr)))
    → Agrees g.read_tasks g.laddrs
    → let w = recv_from ptr polls g in
      let ps = answers read_path g.read_tasks polls in
      (w.0 ≡ first ps) × ((w.1.batching_read_buf ≡ buffer_left ptr ps) × Kept g w.1)
unfolding recv_from
recv_from_lem g ptr polls v =
    let ps = answers read_path g.read_tasks polls in
    rw (wait_lem read_path g.read_tasks polls ptr) (
      after_read_lem g (buffer_left ptr ps) ps v
        (answers-Asked read_path g.read_tasks polls ps refl))

-- The same for `send_to`, whose path has the address of the socket and that of the buffer.
pub send_to_lem :
    {Addr : Type 0} (g : UdpGroup Addr) (buf : Bytes) (raddr : Addr)
    (polls : List (ℕ × Outcome ErrorKind ℕ))
    → Agrees g.write_tasks g.laddrs
    → let w = send_to buf raddr polls g in
      let ps = answers write_path g.write_tasks (sent_to raddr polls) in
      (w.0 ≡ first ps) × ((w.1.batching_write_buf ≡ buffer_left (buf, raddr) ps) × Kept g w.1)
unfolding send_to
send_to_lem {Addr = Addr} g buf raddr polls v =
    let ps = answers write_path g.write_tasks (sent_to raddr polls) in
    rw (wait_lem {B = Bytes × Addr} write_path g.write_tasks (sent_to raddr polls) (buf, raddr)) (
      after_write_lem g (buffer_left (buf, raddr) ps) ps v
        (answers-Asked write_path g.write_tasks (sent_to raddr polls) ps refl))
