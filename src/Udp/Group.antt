-- ===== src/Udp/Group.antt =====
-- crates/net/udp/src/group.rs: `UdpGroup`, one call at a time, over what its driver gives. A handle is a
-- number, and so is the box that `batching_read_buf` points to. The driver gives each handle once, so a
-- batcher has one operation for it at most.
pub mod Calls
pub mod Bind
pub mod Exchange
use hala_rs.Base.{
  ℕ, Bool, true, false, Option, none, some, List, [], ◌∷◌, ◌++◌, Outcome, ok, err, ◌>>=◌,
}
use hala_rs.Base.Maps.{Eq, Nat-Eq, lookup, insert, remove}
use hala_rs.Io.Error.{ErrorKind, would_block, not_found}
use hala_rs.Io.ReadBuf.{Bytes}

pub record PathInfo (Addr : Type 0) : Type 0 where
  pub from : Addr
  pub to : Addr

-- `read_tasks` and `write_tasks` are the operations in `batching_reader` and in `batching_writer`: each
-- its handle, with the address its closure has captured.
pub record UdpGroup (Addr : Type 0) : Type 0 where
  pub fds : List (Addr × ℕ)
  pub laddrs : List (ℕ × Addr)
  pub batching_read_buf : Option ℕ
  pub batching_write_buf : Option (Bytes × Addr)
  pub read_tasks : List (ℕ × Addr)
  pub write_tasks : List (ℕ × Addr)

-- What the driver gives for one address of `bind`: the handle, the registration and its address.
pub record Opening (Addr : Type 0) : Type 0 where
  pub opened : Outcome ErrorKind ℕ
  pub registered : Outcome ErrorKind (Unit {0})
  pub local_addr : Outcome ErrorKind Addr

-- How a poll of one operation ends.
pub data Polled (Addr : Type 0) : Type 0 where
  panics : Polled Addr
  pending : Polled Addr
  ready : (handle : ℕ) (result : Outcome ErrorKind (ℕ × PathInfo Addr)) → Polled Addr

-- `would_block` over the results of the driver; `none` if each would block.
abbrev pub retry : List (Outcome ErrorKind ℕ) → Option (Outcome ErrorKind ℕ)
retry [] = none
retry (err would_block ∷ rs) = retry rs
retry (r ∷ rs) = some r

abbrev pub to_handle : Option ℕ → (ℕ → List (Outcome ErrorKind ℕ)) → Option (Outcome ErrorKind ℕ)
to_handle none results = some (err not_found)
to_handle (some h) results = retry (results h)

module _ {Addr : Type 0} where
  -- The closure of `push_batch_read` and of `push_batch_write`: the pointer is taken, and put back if
  -- the call of the driver would block.
  abbrev pub poll_taken :
      {B : Type 0}
      → ℕ
      → (Addr → PathInfo Addr)
      → B
      → Outcome ErrorKind (ℕ × Addr)
      → Polled Addr × Option B
  poll_taken h path b (ok (n, raddr)) = (ready h (ok (n, path raddr)), none)
  poll_taken h path b (err would_block) = (pending, some b)
  poll_taken h path b (err e) = (ready h (err e), none)

  abbrev pub poll_batch :
      {B : Type 0}
      → ℕ
      → (Addr → PathInfo Addr)
      → Option B
      → Outcome ErrorKind (ℕ × Addr)
      → Polled Addr × Option B
  poll_batch h path none r = (panics, none)
  poll_batch h path (some b) r = poll_taken h path b r

  -- `wait` up to its result or to the end of the polls: the operations it polls, in their order, with
  -- what the driver gives them. A handle without an operation is not polled.
  abbrev pub go_on :
      {B : Type 0}
      → Polled Addr × Option B
      → (Option B → Polled Addr × Option B)
      → Polled Addr × Option B
  go_on (pending, b) rest = rest b
  go_on (panics, b) rest = (panics, b)
  go_on (ready h r, b) rest = (ready h r, b)

  abbrev pub poll_task :
      {B : Type 0}
      → (Addr → Addr → PathInfo Addr)
      → ℕ
      → Option Addr
      → Option B
      → Outcome ErrorKind (ℕ × Addr)
      → Polled Addr × Option B
  poll_task path h none b r = (pending, b)
  poll_task path h (some laddr) b r = poll_batch h (path laddr) b r

  abbrev pub wait :
      {B : Type 0}
      → (Addr → Addr → PathInfo Addr)
      → List (ℕ × Addr)
      → List (ℕ × Outcome ErrorKind (ℕ × Addr))
      → Option B
      → Polled Addr × Option B
  wait path tasks [] b = (pending, b)
  wait path tasks ((h, r) ∷ polls) b =
      go_on (poll_task path h (lookup h tasks) b r) (λ c. wait path tasks polls c)

  -- `none` where `expect` panics.
  abbrev pub add_read : ℕ → Option Addr → UdpGroup Addr → Option (UdpGroup Addr)
  add_read h none g = none
  add_read h (some laddr) g = some (record g { read_tasks = insert h laddr g.read_tasks })

  abbrev pub push_batch_read : ℕ → UdpGroup Addr → Option (UdpGroup Addr)
  push_batch_read h g = add_read h (lookup h g.laddrs) g

  abbrev pub add_write : ℕ → Option Addr → UdpGroup Addr → Option (UdpGroup Addr)
  add_write h none g = none
  add_write h (some laddr) g = some (record g { write_tasks = insert h laddr g.write_tasks })

  abbrev pub push_batch_write : ℕ → UdpGroup Addr → Option (UdpGroup Addr)
  push_batch_write h g = add_write h (lookup h g.laddrs) g

  -- The operation whose result `wait` gives has left the batcher, and one is pushed for its handle.
  abbrev pub or_panics :
      Polled Addr → UdpGroup Addr → Option (UdpGroup Addr) → Polled Addr × UdpGroup Addr
  or_panics p g none = (panics, g)
  or_panics p g (some g') = (p, g')

  abbrev pub after_read : Polled Addr → UdpGroup Addr → Polled Addr × UdpGroup Addr
  after_read (ready h r) g =
      let g' = record g { read_tasks = remove h g.read_tasks } in
      or_panics (ready h r) g' (push_batch_read h g')
  after_read p g = (p, g)

  abbrev pub after_write : Polled Addr → UdpGroup Addr → Polled Addr × UdpGroup Addr
  after_write (ready h r) g =
      let g' = record g { write_tasks = remove h g.write_tasks } in
      or_panics (ready h r) g' (push_batch_write h g')
  after_write p g = (p, g)

  abbrev pub read_path : Addr → Addr → PathInfo Addr
  read_path laddr raddr = record { from = raddr; to = laddr }

  abbrev pub write_path : Addr → Addr → PathInfo Addr
  write_path laddr raddr = record { from = laddr; to = raddr }

  -- A call whose buffer is in the box `ptr`.
  unfoldable pub recv_from :
      ℕ → List (ℕ × Outcome ErrorKind (ℕ × Addr)) → UdpGroup Addr → Polled Addr × UdpGroup Addr
  unfolding lookup insert
  recv_from ptr polls g =
      let (p, b) = wait read_path g.read_tasks polls (some ptr) in
      after_read p (record g { batching_read_buf = b })

  -- The driver gives a size; the address of the path is that of the buffer.
  abbrev pub sent_to :
      Addr → List (ℕ × Outcome ErrorKind ℕ) → List (ℕ × Outcome ErrorKind (ℕ × Addr))
  sent_to raddr [] = []
  sent_to raddr ((h, r) ∷ polls) = (h, r >>= (λ n. ok (n, raddr))) ∷ sent_to raddr polls

  unfoldable pub send_to :
      Bytes → Addr → List (ℕ × Outcome ErrorKind ℕ) → UdpGroup Addr → Polled Addr × UdpGroup Addr
  unfolding lookup insert
  send_to buf raddr polls g =
      let (p, b) = wait write_path g.write_tasks (sent_to raddr polls) (some (buf, raddr)) in
      after_write p (record g { batching_write_buf = b })

  -- `none` where a push panics.
  abbrev pub when_pushed :
      Option (UdpGroup Addr) → (UdpGroup Addr → Option (UdpGroup Addr)) → Option (UdpGroup Addr)
  when_pushed none rest = none
  when_pushed (some g) rest = rest g

  abbrev pub init_push_batch_ops : List (Addr × ℕ) → UdpGroup Addr → Option (UdpGroup Addr)
  init_push_batch_ops [] g = some g
  init_push_batch_ops ((a, h) ∷ fds) g =
      when_pushed (push_batch_read h g)
        (λ g'. when_pushed (push_batch_write h g') (λ g''. init_push_batch_ops fds g''))

  abbrev pub no_sockets : UdpGroup Addr
  no_sockets = record {
    fds = [];
    laddrs = [];
    batching_read_buf = none;
    batching_write_buf = none;
    read_tasks = [];
    write_tasks = [];
  }

module _ {Addr : Type 0} ⦃eq : Eq Addr⦄ where
  -- `results` is what the driver gives for the sends on a handle.
  unfoldable pub send_to_on_path :
      PathInfo Addr
      → (ℕ → List (Outcome ErrorKind ℕ))
      → UdpGroup Addr
      → Option (Outcome ErrorKind ℕ)
  unfolding lookup
  send_to_on_path path results g = to_handle (lookup path.from g.fds) results

  -- The loop of `bind`, then one operation of each kind for each handle.
  abbrev pub with_handle :
      Opening Addr → Outcome ErrorKind ℕ → UdpGroup Addr → Outcome ErrorKind (UdpGroup Addr)
  with_handle o (err e) g = err e
  with_handle o (ok fd) g = o.registered >>= (λ u. o.local_addr >>= (λ laddr.
      ok (record g { fds = insert laddr fd g.fds; laddrs = insert fd laddr g.laddrs })))

  abbrev pub bind_loop : List (Opening Addr) → UdpGroup Addr → Outcome ErrorKind (UdpGroup Addr)
  bind_loop [] g = ok g
  bind_loop (o ∷ os) g = with_handle o o.opened g >>= (λ h. bind_loop os h)

  unfoldable pub bind : List (Opening Addr) → Outcome ErrorKind (Option (UdpGroup Addr))
  unfolding lookup insert
  bind os = bind_loop os no_sockets >>= (λ g. ok (init_push_batch_ops g.fds g))
