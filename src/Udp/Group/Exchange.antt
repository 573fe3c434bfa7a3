-- ===== src/Udp/Group/Exchange.antt =====
-- The calls that follow a `bind` of crates/net/udp/src/group.rs.
use hala_rs.Base.{ℕ, ◌≡◌, sym, ◌∙◌, some, List, [], ◌∷◌, Outcome, ok}
use hala_rs.Base.Maps.{Eq, Nat-Eq}
use hala_rs.Io.Error.{ErrorKind}
use hala_rs.Io.ReadBuf.{Bytes}
use hala_rs.Udp.Group.{UdpGroup, Opening, bind, recv_from, send_to, sent_to, read_path, write_path}
use hala_rs.Udp.Group.Calls.{answers, first, buffer_left, Kept, recv_from_lem, send_to_lem}
use hala_rs.Udp.Group.Bind.{AllAgree, AllServed, bind_lem}

-- The groups that calls reach, one call at a time.
pub data Run {Addr : Type 0} : UdpGroup Addr → UdpGroup Addr → Type 0 where
  bound : {g : UdpGroup Addr} → Run g g
  received :
      {g h : UdpGroup Addr}
      → Run g h
      → (ptr : ℕ) (polls : List (ℕ × Outcome ErrorKind (ℕ × Addr)))
      → Run g (recv_from ptr polls h).1
  sent :
      {g h : UdpGroup Addr}
      → Run g h
      → (buf : Bytes) (raddr : Addr) (polls : List (ℕ × Outcome ErrorKind ℕ))
      → Run g (send_to buf raddr polls h).1

module _ {Addr : Type 0} where
  Kept-AllAgree : (g h : UdpGroup Addr) → AllAgree g → Kept g h → AllAgree h
  Kept-AllAgree g h v (l, (r, w)) =
      (λ k a e. rw l (v.0 k a (sym (r k) ∙ e)), λ k a e. rw l (v.1 k a (sym (w k) ∙ e)))

  Kept-AllServed :
      (g h : UdpGroup Addr) (fds : List (Addr × ℕ)) → AllServed g fds → Kept g h → AllServed h fds
  Kept-AllServed g h [] s k = tt
  Kept-AllServed g h ((a, i) ∷ fds) ((p, q), s) (l, (r, w)) =
      ((rw l (r i ∙ p), rw l (w i ∙ q)), Kept-AllServed g h fds s (l, (r, w)))

  Run-lem :
      {g h : UdpGroup Addr} (fds : List (Addr × ℕ))
      → Run g h
      → AllAgree g
      → AllServed g fds
      → AllAgree h × AllServed h fds
  Run-lem fds bound v s = (v, s)
  Run-lem fds (received {h = h} r ptr polls) v s =
      let (v1, s1) = Run-lem fds r v s in
      let k = (recv_from_lem h ptr polls v1.0).1.1 in
      let h1 = (recv_from ptr polls h).1 in (Kept-AllAgree h h1 v1 k, Kept-AllServed h h1 fds s1 k)
  Run-lem fds (sent {h = h} r buf raddr polls) v s =
      let (v1, s1) = Run-lem fds r v s in
      let k = (send_to_lem h buf raddr polls v1.1).1.1 in
      let h1 = (send_to buf raddr polls h).1 in
      (Kept-AllAgree h h1 v1 k, Kept-AllServed h h1 fds s1 k)

-- After a `bind` and any calls of `recv_from` and `send_to`, no assertion and no `expect` of either
-- has failed or fails in the next call: it ends with the first answer of the driver to an operation
-- of the batcher that is not `WouldBlock`, with the address of the socket in the path, and the buffer
-- has then been taken; where every poll would block, it waits and the buffer is in its place. Both
-- operations of each socket stand in the batchers.
pub exchange_lem :
    {Addr : Type 0} ⦃eq : Eq Addr⦄ (os : List (Opening Addr)) {g h : UdpGroup Addr}
    → bind os ≡ ok (some g)
    → Run g h
    → (ptr : ℕ) (reads : List (ℕ × Outcome ErrorKind (ℕ × Addr))) (buf : Bytes) (raddr : Addr)
      (writes : List (ℕ × Outcome ErrorKind ℕ))
    → let r = recv_from ptr reads h in
      let w = send_to buf raddr writes h in
      let ps = answers read_path h.read_tasks reads in
      let qs = answers write_path h.write_tasks (sent_to raddr writes) in
      ((r.0 ≡ first ps) × (r.1.batching_read_buf ≡ buffer_left ptr ps))
      × (((w.0 ≡ first qs) × (w.1.batching_write_buf ≡ buffer_left (buf, raddr) qs))
          × AllServed h g.fds)
exchange_lem os {g = g} {h = h} e run ptr reads buf raddr writes =
    let (g1, (p, (v, s))) = bind_lem os e in
    let q : g1 ≡ g = cc in
    let (v1, s1) = Run-lem g.fds run (rw q at v) (rw q at s) in
    let r = recv_from_lem h ptr reads v1.0 in
    let w = send_to_lem h buf raddr writes v1.1 in ((r.0, r.1.0), ((w.0, w.1.0), s1))
