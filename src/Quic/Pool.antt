-- ===== src/Quic/Pool.antt =====
-- crates/net/quic/src/conn_pool.rs: `RawConnPool` with its lock held, over the states that its
-- connections have in that time, in the order of the iteration over its map.
pub mod Bounds
use hala_rs.Base.{
  ℕ, Bool, true, false, Option, none, some, List, [], ◌∷◌, ◌++◌, Outcome, ok, err, ltb, leb,
  if◌then◌else◌, length,
}
use hala_rs.Base.Maps.{Text-Eq, remove, insert}
use hala_rs.Io.Error.{ErrorKind, would_block}
use hala_rs.Io.ReadBuf.{Bytes}
use hala_rs.Quic.Api.{Quiche}
use hala_rs.Quic.Conn.{QuicConnState, Handled}
use hala_rs.Quic.Conn.Calls
use hala_rs.Quic.Conn.Packets

pub record RawConnPool (C : Type 0) : Type 0 where
  pub max_conns : ℕ
  pub conns : List (Bytes × QuicConnState C)

-- What the loop over the connections finds: the first that has a stream left, or the closed ones, if
-- no call panics.
pub data Found (C : Type 0) : Type 0 where
  panicked : Found C
  usable : Bytes → QuicConnState C → Found C
  nothing : (closed : List Bytes) → Found C

abbrev pub also_closed : {C : Type 0} → Bytes → Found C → Found C
also_closed id panicked = panicked
also_closed id (usable k c) = usable k c
also_closed id (nothing closed) = nothing (id ∷ closed)

abbrev pub remove_all : {V : Type 0} → List Bytes → List (Bytes × V) → List (Bytes × V)
remove_all [] m = m
remove_all (id ∷ ids) m = remove_all ids (remove id m)

abbrev pub on_left : {C : Type 0} → Bytes → QuicConnState C → Option ℕ → Found C → Found C
on_left id c none rest = panicked
on_left id c (some left) rest = if ltb 0 left then usable id c else rest

module _ {C I : Type 0} (Q : Quiche C I) where
  abbrev pub search : List (Bytes × QuicConnState C) → Found C
  search [] = nothing []
  search ((id, c) ∷ conns) =
      let rest = search conns in
      if Packets.is_closed Q c
      then also_closed id rest
      else on_left id c (Packets.peer_streams_left_bidi Q c) rest

  abbrev pub Choice : Type 0
  Choice = Outcome ErrorKind (Bytes × QuicConnState C) × RawConnPool C

  abbrev pub add_conn : Outcome ErrorKind (Bytes × QuicConnState C) → RawConnPool C → Choice
  add_conn (err e) p = (err e, p)
  add_conn (ok (id, c)) p = (ok (id, c), record p { conns = insert id c p.conns })

  -- `none` where a call panics, here and below.
  abbrev pub choose :
      Found C → Outcome ErrorKind (Bytes × QuicConnState C) → RawConnPool C → Option Choice
  choose panicked connect p = none
  choose (usable id c) connect p = some (ok (id, c), p)
  choose (nothing closed) connect p =
      let p' = record p { conns = remove_all closed p.conns } in
      some
        (if leb p.max_conns (length p'.conns) then (err would_block, p') else add_conn connect p')

  -- `connect` is what `QuicConn::connect` would return: an id and a connection.
  unfoldable pub find_avalid_conn :
      Outcome ErrorKind (Bytes × QuicConnState C) → RawConnPool C → Option Choice
  unfolding Packets.is_closed Packets.peer_streams_left_bidi insert remove
  find_avalid_conn connect p = choose (search p.conns) connect p

  -- The stream's connection, its id and the pool with the state of that connection.
  abbrev pub put_back :
      Bytes → Handled C ℕ → RawConnPool C → Outcome ErrorKind (Bytes × ℕ) × RawConnPool C
  put_back id (err e, c) p = (err e, record p { conns = insert id c p.conns })
  put_back id (ok stream, c) p = (ok (id, stream), record p { conns = insert id c p.conns })

  abbrev pub open_on : Option Choice → Option (Outcome ErrorKind (Bytes × ℕ) × RawConnPool C)
  open_on none = none
  open_on (some (err e, p)) = some (err e, p)
  open_on (some (ok (id, c), p)) = some (put_back id (Calls.open_stream Q c) p)

  unfoldable pub open_stream :
      Outcome ErrorKind (Bytes × QuicConnState C)
      → RawConnPool C
      → Option (Outcome ErrorKind (Bytes × ℕ) × RawConnPool C)
  unfolding find_avalid_conn Calls.open_stream
  open_stream connect p = open_on (find_avalid_conn connect p)
