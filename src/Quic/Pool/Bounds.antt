-- ===== src/Quic/Pool/Bounds.antt =====
-- The size of the pool of crates/net/quic/src/conn_pool.rs, and when it gives a stream.
use hala_rs.Base.{
  ℕ, ◌≤◌, ◌<◌, ◌≡◌, ◌⊎◌, ◌∙◌, inl, inr, refl, true, false, Option, none, some, List, [], ◌∷◌,
  Outcome, ok, err, ltb, leb, length, All, Bool-cases, Option-cases, arith,
}
use hala_rs.Base.Maps.{Text-Eq, lookup, remove, insert}
use hala_rs.Io.Error.{ErrorKind, would_block}
use hala_rs.Io.ReadBuf.{Bytes}
use hala_rs.Quic.Api.{Quiche}
use hala_rs.Quic.Conn.{QuicConnState, Handled}
use hala_rs.Quic.Conn.Calls
use hala_rs.Quic.Conn.Packets
use hala_rs.Quic.Pool.{
  RawConnPool, Found, panicked, on_left, usable, nothing, remove_all, search, choose, add_conn,
  find_avalid_conn, put_back, open_on, open_stream, Choice, also_closed,
}

module _ {V : Type 0} where
  length-remove : (id : Bytes) (m : List (Bytes × V)) → length (remove id m) ≤ length m
  unfolding remove
  length-remove id [] = omega arith
  length-remove id ((j, v) ∷ m) = ground (arith, length-remove id m)

  length-remove_bound :
      (id : Bytes) (v : V) (m : List (Bytes × V))
      → lookup id m ≡ some v
      → length (remove id m) < length m
  unfolding lookup remove
  length-remove_bound id v [] e = cc
  length-remove_bound id v ((j, w) ∷ m) e =
      ground (arith, e, length-remove id m, length-remove_bound id v m)

  length-remove_all :
      (ids : List Bytes) (m : List (Bytes × V)) → length (remove_all ids m) ≤ length m
  length-remove_all [] m = omega arith
  length-remove_all (id ∷ ids) m =
      omega (arith, length-remove_all ids (remove id m), length-remove id m)

abbrev pub Any : {A : Type 0} → (A → Type 0) → List A → Type 0
Any P [] = ⊥
Any P (x ∷ xs) = P x ⊎ Any P xs

-- The connection has a stream left.
abbrev pub Usable : {C I : Type 0} → Quiche C I → QuicConnState C → Type 0
Usable Q c =
    (Packets.is_closed Q c ≡ false)
    × ((n : ℕ) × (Packets.peer_streams_left_bidi Q c ≡ some n) × (0 < n))

abbrev pub Unusable : {C I : Type 0} → Quiche C I → QuicConnState C → Type 0
Unusable Q c = (Packets.is_closed Q c ≡ true) ⊎ (Packets.peer_streams_left_bidi Q c ≡ some 0)

-- The connection is open, and quiche has no transport parameters of its peer.
abbrev pub Unknown : {C I : Type 0} → Quiche C I → QuicConnState C → Type 0
Unknown Q c =
    (Packets.is_closed Q c ≡ false) × (Q.initial_max_streams_bidi c.state.quiche_conn ≡ none)

unknown-none :
    {C I : Type 0} (Q : Quiche C I) (c : QuicConnState C)
    → Packets.peer_streams_left_bidi Q c ≡ none
    → Q.initial_max_streams_bidi c.state.quiche_conn ≡ none
unfolding Packets.peer_streams_left_bidi
unknown-none Q c e = elim (Option-cases (Q.initial_max_streams_bidi c.state.quiche_conn)) [
  | inl u ↦ u
  | inr (n, u) ↦ cc (rw u at e)
]

module _ {C I : Type 0} (Q : Quiche C I) where
  -- The search finds a usable connection of the pool, or there is none.
  abbrev Finds : List (Bytes × QuicConnState C) → Found C → Type 0
  Finds m panicked = Any (λ e. Unknown Q e.1) m
  Finds m (usable id c) =
      (Usable Q c × Any (λ e. e ≡ (id, c)) m) × ((d : QuicConnState C) × (lookup id m ≡ some d))
  Finds m (nothing closed) = All (λ e. Unusable Q e.1) m

  cons-Finds :
      (id : Bytes) (c : QuicConnState C) (m : List (Bytes × QuicConnState C)) (f : Found C)
      → Unusable Q c
      → Finds m f
      → Finds ((id, c) ∷ m) f × Finds ((id, c) ∷ m) (also_closed id f)
  unfolding lookup
  cons-Finds id c m panicked n h = (inr h, inr h)
  cons-Finds id c m (nothing closed) n h = ((n, h), (n, h))
  cons-Finds id c m (usable k d) n ((u, i), (v, e)) = elim (Bool-cases (Text-Eq.beq id k)) [
    | inl s ↦ (((u, inr i), (c, rw s refl)), ((u, inr i), (c, rw s refl)))
    | inr s ↦ (((u, inr i), (v, rw s e)), ((u, inr i), (v, rw s e)))
  ]

  left-Finds :
      (id : Bytes) (c : QuicConnState C) (m : List (Bytes × QuicConnState C)) (f : Found C)
      (o : Option ℕ)
      → Packets.is_closed Q c ≡ false
      → Packets.peer_streams_left_bidi Q c ≡ o
      → Finds m f
      → Finds ((id, c) ∷ m) (on_left id c o f)
  unfolding lookup Packets.peer_streams_left_bidi
  left-Finds id c m f none e l h = inl (e, unknown-none Q c l)
  left-Finds id c m f (some n) e l h = elim (Bool-cases (ltb 0 n)) [
    | inl g ↦ rw g (
        (
          ((e, (n, l, ground (arith, g))), inl refl),
          (c, ground (arith, (Text-Eq.beq_iff id id).1 refl)),
        ))
    | inr g ↦ let z : n ≡ 0 = ground (arith, g) in rw g (cons-Finds id c m f (inr (rw z at l)) h).0
  ]

  search-Finds : (m : List (Bytes × QuicConnState C)) → Finds m (search Q m)
  unfolding lookup
  search-Finds [] = tt
  search-Finds ((id, c) ∷ m) = elim (Bool-cases (Packets.is_closed Q c)) [
    | inl e ↦ rw e (cons-Finds id c m (search Q m) (inl e) (search-Finds m)).1
    | inr e ↦ rw e (
        left-Finds id c m (search Q m) (Packets.peer_streams_left_bidi Q c) e refl (search-Finds m))
  ]

  -- The new connection is in the pool, under its id.
  abbrev pub Joined :
      Outcome ErrorKind (Bytes × QuicConnState C) → List (Bytes × QuicConnState C) → Type 0
  Joined (err e) m = Unit
  Joined (ok (id, c)) m = lookup id m ≡ some c

  -- What `find_avalid_conn` gives for a pool, with what `QuicConn::connect` would give.
  abbrev pub Chosen :
      Outcome ErrorKind (Bytes × QuicConnState C) → RawConnPool C → Option (Choice Q) → Type 0
  Chosen connect p none = Any (λ e. Unknown Q e.1) p.conns
  Chosen connect p (some (r, q)) =
      ((id : Bytes) × (c : QuicConnState C) × (r ≡ ok (id, c))
        × Usable Q c
        × Any (λ e. e ≡ (id, c)) p.conns
        × (q.conns ≡ p.conns))
      ⊎ (All (λ e. Unusable Q e.1) p.conns
          × (((r ≡ err would_block) × (p.max_conns ≤ length q.conns))
              ⊎ ((r ≡ connect) × Joined r q.conns)))

  add-Chosen :
      (connect : Outcome ErrorKind (Bytes × QuicConnState C)) (p q : RawConnPool C)
      → All (λ e. Unusable Q e.1) p.conns
      → Chosen connect p (some (add_conn Q connect q))
  unfolding insert lookup
  add-Chosen (err e) p q h = inr (h, inr (refl, tt))
  add-Chosen (ok (id, c)) p q h =
      inr (h, inr (refl, ground (arith, (Text-Eq.beq_iff id id).1 refl)))

  choose-Chosen :
      (f : Found C) (connect : Outcome ErrorKind (Bytes × QuicConnState C)) (p : RawConnPool C)
      → Finds p.conns f
      → Chosen connect p (choose Q f connect p)
  choose-Chosen panicked connect p h = h
  choose-Chosen (usable id c) connect p ((u, i), k) = inl (id, c, refl, u, i, refl)
  choose-Chosen (nothing closed) connect p h =
      elim (Bool-cases (leb p.max_conns (length (remove_all closed p.conns)))) [
        | inl e ↦ rw e (inr (h, inl (refl, ground (arith, e))))
        | inr e ↦ rw e (add-Chosen connect p (record p { conns = remove_all closed p.conns }) h)
      ]

module _ {C I : Type 0} (Q : Quiche C I) where
  -- The pool is within its maximum, and has the connection that was chosen.
  abbrev Within : ℕ → Choice Q → Type 0
  Within m (err e, p) = (p.max_conns ≡ m) × (length p.conns ≤ m)
  Within m (ok (id, c), p) =
      (p.max_conns ≡ m)
      × (length p.conns ≤ m)
      × ((d : QuicConnState C) × (lookup id p.conns ≡ some d))

  add-Within :
      (connect : Outcome ErrorKind (Bytes × QuicConnState C)) (p : RawConnPool C)
      → length p.conns < p.max_conns
      → Within p.max_conns (add_conn Q connect p)
  unfolding insert lookup
  add-Within (err e) p l = (refl, omega (arith, l))
  add-Within (ok (id, c)) p l = (
    refl,
    omega (arith, l, length-remove id p.conns),
    (c, ground (arith, (Text-Eq.beq_iff id id).1 refl)),
  )

  abbrev AllWithin : ℕ → Option (Choice Q) → Type 0
  AllWithin m none = Unit
  AllWithin m (some r) = Within m r

  choose-Within :
      (f : Found C) (connect : Outcome ErrorKind (Bytes × QuicConnState C)) (p : RawConnPool C)
      → Finds Q p.conns f
      → length p.conns ≤ p.max_conns
      → AllWithin p.max_conns (choose Q f connect p)
  choose-Within panicked connect p h l = tt
  choose-Within (usable id c) connect p (u, k) l = (refl, l, k)
  choose-Within (nothing closed) connect p h l =
      elim (Bool-cases (leb p.max_conns (length (remove_all closed p.conns)))) [
        | inl e ↦ rw e (refl, omega (arith, l, length-remove_all closed p.conns))
        | inr e ↦ rw e (
            add-Within connect (record p { conns = remove_all closed p.conns }) (ground (arith, e)))
      ]

  put_back-length :
      (id : Bytes) (h : Handled C ℕ) (p : RawConnPool C) (d : QuicConnState C)
      → lookup id p.conns ≡ some d
      → ((put_back Q id h p).1.max_conns ≡ p.max_conns)
        × (length (put_back Q id h p).1.conns ≤ length p.conns)
  unfolding insert
  put_back-length id (ok stream, c) p d e =
      (refl, omega (arith, length-remove_bound id d p.conns e))
  put_back-length id (err k, c) p d e = (refl, omega (arith, length-remove_bound id d p.conns e))

  -- A pool of the size `m` at most is left, unless the choice panicked.
  abbrev pub Bounded :
      ℕ → Option (Choice Q) → Option (Outcome ErrorKind (Bytes × ℕ) × RawConnPool C) → Type 0
  Bounded m none r = r ≡ none
  Bounded m (some choice) none = ⊥
  Bounded m (some choice) (some (r, q)) = (q.max_conns ≡ m) × (length q.conns ≤ m)

  open_on-length : (m : ℕ) (r : Option (Choice Q)) → AllWithin m r → Bounded m r (open_on Q r)
  open_on-length m none h = refl
  open_on-length m (some (err e, p)) h = h
  open_on-length m (some (ok (id, c), p)) h =
      let (d, e) = h.2 in
      let back = put_back-length id (Calls.open_stream Q c) p d e in
      (back.0 ∙ h.0, omega (arith, back.1, h.1))

-- A usable connection is one that is not closed and has a stream left. `find_avalid_conn` returns one
-- of the pool and leaves the pool as it is; or the pool has none, and then it returns what the new
-- connection gives, which is then in the pool, or `WouldBlock`, behind which the pool has its maximal
-- number of connections; or it panics, and the pool has a connection that is open and for which quiche
-- has no transport parameters of the peer. A pool within its maximal number stays within it in
-- `open_stream`, which panics where `find_avalid_conn` does.
pub open_stream_lem :
    {C I : Type 0} (Q : Quiche C I) (connect : Outcome ErrorKind (Bytes × QuicConnState C))
    (p : RawConnPool C)
    → length p.conns ≤ p.max_conns
    → Chosen Q connect p (find_avalid_conn Q connect p)
      × Bounded Q p.max_conns (find_avalid_conn Q connect p) (open_stream Q connect p)
unfolding open_stream find_avalid_conn
open_stream_lem Q connect p l =
    let finds = search-Finds Q p.conns in
    let size =
      open_on-length Q p.max_conns (choose Q (search Q p.conns) connect p)
        (choose-Within Q (search Q p.conns) connect p finds l) in
    (choose-Chosen Q (search Q p.conns) connect p finds, size)
