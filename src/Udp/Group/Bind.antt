-- ===== src/Udp/Group/Bind.antt =====
-- What `bind` of crates/net/udp/src/group.rs gives.
use hala_rs.Base.{
  ℕ, ◌≡◌, inl, inr, refl, sym, ◌∙◌, true, false, Option, none, some, List, [], ◌∷◌, Outcome, ok,
  err, ◌>>=◌, >>=-eq-ok, Bool-cases, ◌==◌, ==_iff, ==_self,
}
use hala_rs.Base.Maps.{Eq, Nat-Eq, lookup, insert, remove, lookup-insert}
use hala_rs.Io.Error.{ErrorKind}
use hala_rs.Udp.Group.{
  UdpGroup, Opening, bind, bind_loop, with_handle, init_push_batch_ops, no_sockets,
}
use hala_rs.Udp.Group.Calls.{Agrees}

lookup-same :
    {V : Type 0} (h k : ℕ) (a : V) (m : List (ℕ × V))
    → h == k ≡ true
    → lookup k (insert h a m) ≡ some a
unfolding Nat-Eq
lookup-same h k a m s = lookup-insert h k a m ∙ rw s refl

lookup-other :
    {V : Type 0} (h k : ℕ) (a : V) (m : List (ℕ × V))
    → h == k ≡ false
    → lookup k (insert h a m) ≡ lookup k m
unfolding Nat-Eq
lookup-other h k a m d = lookup-insert h k a m ∙ rw d refl

lookup-equal :
    {V : Type 0} (h k : ℕ) (a : V) (m : List (ℕ × V))
    → h == k ≡ true
    → lookup h m ≡ some a
    → lookup k m ≡ some a
lookup-equal h k a m s e = let p : h ≡ k = (==_iff h k).0 s in rw p at e

module _ {Addr : Type 0} where
  -- Both operations of a handle are in the batchers, with its address.
  abbrev pub Served : UdpGroup Addr → ℕ → Type 0
  Served g h =
      (lookup h g.read_tasks ≡ lookup h g.laddrs) × (lookup h g.write_tasks ≡ lookup h g.laddrs)

  abbrev pub AllServed : UdpGroup Addr → List (Addr × ℕ) → Type 0
  AllServed g [] = Unit
  AllServed g ((a, h) ∷ fds) = Served g h × AllServed g fds

  abbrev pub Known : List (ℕ × Addr) → List (Addr × ℕ) → Type 0
  Known laddrs [] = Unit
  Known laddrs ((a, h) ∷ fds) = ((b : Addr) × (lookup h laddrs ≡ some b)) × Known laddrs fds

  Agrees-insert :
      (h : ℕ) (a : Addr) (tasks laddrs : List (ℕ × Addr))
      → Agrees tasks laddrs
      → lookup h laddrs ≡ some a
      → Agrees (insert h a tasks) laddrs
  Agrees-insert h a tasks laddrs v e k b q = elim (Bool-cases (h == k)) [
    | inl s ↦ lookup-equal h k a laddrs s e ∙ (sym (lookup-same h k a tasks s) ∙ q)
    | inr d ↦ v k b (sym (lookup-other h k a tasks d) ∙ q)
  ]

  insert-pushed :
      (h : ℕ) (a : Addr) (tasks laddrs : List (ℕ × Addr))
      → lookup h laddrs ≡ some a
      → lookup h (insert h a tasks) ≡ lookup h laddrs
  insert-pushed h a tasks laddrs e = lookup-same h h a tasks (==_self h) ∙ sym e

  insert-stays :
      (h : ℕ) (a : Addr) (tasks laddrs : List (ℕ × Addr))
      → lookup h laddrs ≡ some a
      → (k : ℕ) → lookup k tasks ≡ lookup k laddrs
      → lookup k (insert h a tasks) ≡ lookup k laddrs
  insert-stays h a tasks laddrs e k c = elim (Bool-cases (h == k)) [
    | inl s ↦ lookup-same h k a tasks s ∙ sym (lookup-equal h k a laddrs s e)
    | inr d ↦ lookup-other h k a tasks d ∙ c
  ]

  -- A group whose operations all have its addresses.
  abbrev pub AllAgree : UdpGroup Addr → Type 0
  AllAgree g = Agrees g.read_tasks g.laddrs × Agrees g.write_tasks g.laddrs

  abbrev both_pushed : ℕ → Addr → UdpGroup Addr → UdpGroup Addr
  both_pushed h a g = record g {
    read_tasks = insert h a g.read_tasks;
    write_tasks = insert h a g.write_tasks;
  }

  abbrev Pushed : List (Addr × ℕ) → UdpGroup Addr → UdpGroup Addr → Type 0
  Pushed fds g g' =
      (g'.fds ≡ g.fds) × (AllAgree g' × (AllServed g' fds × ((k : ℕ) → Served g k → Served g' k)))

  init_lem :
      (fds : List (Addr × ℕ)) (g : UdpGroup Addr)
      → Known g.laddrs fds
      → AllAgree g
      → (g' : UdpGroup Addr) × ((init_push_batch_ops fds g ≡ some g') × Pushed fds g g')
  init_lem [] g n v = (g, (refl, (refl, (v, (tt, λ k s. s)))))
  init_lem ((b, h) ∷ fds) g ((a, e), n) (vr, vw) =
      let vr1 = Agrees-insert h a g.read_tasks g.laddrs vr e in
      let vw1 = Agrees-insert h a g.write_tasks g.laddrs vw e in
      let (g2, (q, (f, (v, (all, stays))))) = init_lem fds (both_pushed h a g) n (vr1, vw1) in
      let here =
        stays h
          (insert-pushed h a g.read_tasks g.laddrs e, insert-pushed h a g.write_tasks g.laddrs e) in
      (
        g2,
        (
          rw (e, e) q,
          (
            f,
            (
              v,
              (
                (here, all),
                λ k s. stays k (
                  insert-stays h a g.read_tasks g.laddrs e k s.0,
                  insert-stays h a g.write_tasks g.laddrs e k s.1,
                ),
              ),
            ),
          ),
        ),
      )

  Known-insert :
      (h : ℕ) (a : Addr) (laddrs : List (ℕ × Addr)) (fds : List (Addr × ℕ))
      → Known laddrs fds
      → Known (insert h a laddrs) fds
  Known-insert h a laddrs [] n = tt
  Known-insert h a laddrs ((b, k) ∷ fds) ((c, e), n) = elim (Bool-cases (h == k)) [
    | inl s ↦ ((a, lookup-same h k a laddrs s), Known-insert h a laddrs fds n)
    | inr d ↦ ((c, lookup-other h k a laddrs d ∙ e), Known-insert h a laddrs fds n)
  ]

module _ {Addr : Type 0} ⦃eq : Eq Addr⦄ where
  Known-remove :
      (a : Addr) (laddrs : List (ℕ × Addr)) (fds : List (Addr × ℕ))
      → Known laddrs fds
      → Known laddrs (remove a fds)
  unfolding remove
  Known-remove a laddrs [] n = tt
  Known-remove a laddrs ((b, h) ∷ fds) (e, n) = elim (Bool-cases (eq.beq b a)) [
    | inl s ↦ rw s (Known-remove a laddrs fds n)
    | inr d ↦ rw d (e, Known-remove a laddrs fds n)
  ]

  -- What the loop keeps: nothing is pushed yet, and each socket has its address.
  abbrev Opened : UdpGroup Addr → Type 0
  Opened g = (g.read_tasks ≡ []) × ((g.write_tasks ≡ []) × Known g.laddrs g.fds)

  opened_lem :
      (fd : ℕ) (laddr : Addr) (g : UdpGroup Addr)
      → Opened g
      → Opened (record g { fds = insert laddr fd g.fds; laddrs = insert fd laddr g.laddrs })
  unfolding insert
  opened_lem fd laddr g (r, (w, n)) = (
    r,
    (
      w,
      (
        (laddr, lookup-same fd fd laddr g.laddrs (==_self fd)),
        Known-remove laddr (insert fd laddr g.laddrs) g.fds
            (Known-insert fd laddr g.laddrs g.fds n),
      ),
    ),
  )

  Opened-ok :
      {r : Outcome ErrorKind (UdpGroup Addr)} {g g' : UdpGroup Addr}
      → Opened g
      → r ≡ ok g
      → r ≡ ok g'
      → Opened g'
  Opened-ok {g = g} {g' = g'} o e f = let p : g ≡ g' = cc in rw p at o

  with_handle_lem :
      (o : Opening Addr) (opened : Outcome ErrorKind ℕ) (g : UdpGroup Addr) {g' : UdpGroup Addr}
      → with_handle o opened g ≡ ok g'
      → Opened g
      → Opened g'
  with_handle_lem o (err k) g e n = cc
  with_handle_lem o (ok fd) g e n =
      let (u, p, q) =
        >>=-eq-ok o.registered
          (λ u. o.local_addr >>= (λ laddr.
            ok (record g { fds = insert laddr fd g.fds; laddrs = insert fd laddr g.laddrs })))
          e in
      let (laddr, r, s) =
        >>=-eq-ok o.local_addr
          (λ laddr.
            ok (record g { fds = insert laddr fd g.fds; laddrs = insert fd laddr g.laddrs }))
          q in
      Opened-ok (opened_lem fd laddr g n) refl s

  bind_loop_lem :
      (os : List (Opening Addr)) (g : UdpGroup Addr) {g' : UdpGroup Addr}
      → bind_loop os g ≡ ok g'
      → Opened g
      → Opened g'
  bind_loop_lem [] g e n = Opened-ok n refl e
  bind_loop_lem (o ∷ os) g e n =
      let (h, p, q) = >>=-eq-ok (with_handle o o.opened g) (λ h. bind_loop os h) e in
      bind_loop_lem os h q (with_handle_lem o o.opened g p n)

  Agrees-empty : (tasks laddrs : List (ℕ × Addr)) → tasks ≡ [] → Agrees tasks laddrs
  unfolding lookup
  Agrees-empty tasks laddrs r h a e = let q : none ≡ some a = rw r at e in cc

  Opened-AllAgree : (g : UdpGroup Addr) → Opened g → AllAgree g
  Opened-AllAgree g (r, (w, n)) =
      (Agrees-empty g.read_tasks g.laddrs r, Agrees-empty g.write_tasks g.laddrs w)

-- Where `bind` returns, no `expect` has panicked: it gives a group whose operations all have its
-- addresses, and both operations of each socket stand in the batchers.
pub bind_lem :
    {Addr : Type 0} ⦃eq : Eq Addr⦄ (os : List (Opening Addr)) {m : Option (UdpGroup Addr)}
    → bind os ≡ ok m
    → (g : UdpGroup Addr) × ((m ≡ some g) × (AllAgree g × AllServed g g.fds))
unfolding bind
bind_lem os {m = m} e =
    let (h, p, q) = >>=-eq-ok (bind_loop os no_sockets) (λ g. ok (init_push_batch_ops g.fds g)) e in
    let n = bind_loop_lem os no_sockets p (refl, (refl, tt)) in
    let (g, (r, (f, (v, (all, stays))))) = init_lem h.fds h n.1.1 (Opened-AllAgree h n) in
    let s : init_push_batch_ops h.fds h ≡ m = cc in (g, (sym s ∙ r, (v, rw (sym f) at all)))
