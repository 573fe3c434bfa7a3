-- ===== src/Io/Stream.antt =====
-- A stream under `futures::AsyncRead` as the script of what its reads deliver.
use hala_rs.Base.{
  ℕ, zero, suc, ◌+◌, ◌≤◌, ◌<◌, ◌≡◌, ◌≢◌, List, [], ◌∷◌, Outcome, ok, err, length, take, drop, leb,
  if◌then◌else◌, arith, length-take, length-drop, ◌++◌, Bool-cases, inl, inr, ap, take-append-drop,
  append_assoc,
}
use hala_rs.Io.Error.{ErrorKind}
use hala_rs.Io.ReadBuf.{Bytes}

pub data Delivery : Type 0 where
  chunk : Bytes → Delivery
  fail : ErrorKind → Delivery

abbrev pub Stream : Type 0
Stream = List Delivery

-- `stream.read(buf)` with room for `room` bytes. What does not fit waits for the next read; past
-- the end of the script every read returns 0 bytes.
unfoldable pub read : Stream → ℕ → Outcome ErrorKind Bytes × Stream
read [] room = (ok [], [])
read (fail e ∷ s) room = (err e, s)
read (chunk bs ∷ s) room =
    if leb (length bs) room then (ok bs, s) else (ok (take room bs), chunk (drop room bs) ∷ s)

-- Reads and bytes that are left.
unfoldable pub weight : Stream → ℕ
weight [] = 0
weight (fail e ∷ s) = suc (weight s)
weight (chunk bs ∷ s) = suc (length bs + weight s)

pub length-read : (s : Stream) (room : ℕ) {bs : Bytes} → (read s room).0 ≡ ok bs → length bs ≤ room
unfolding read
length-read [] room e = ground arith
length-read (fail k ∷ s) room e = cc
length-read (chunk bs ∷ s) room e = ground (arith, length-take room bs)

-- A read that delivers something leaves less to read.
pub weight-read :
    (s : Stream) (room : ℕ) {bs : Bytes}
    → (read s room).0 ≡ ok bs
    → bs ≢ []
    → weight (read s room).1 < weight s
unfolding read weight
weight-read [] room e n = ground arith
weight-read (fail k ∷ s) room e n = cc
weight-read (chunk [] ∷ s) room e n = ground arith
weight-read (chunk (b ∷ bs) ∷ s) zero e n = ground arith
weight-read (chunk (b ∷ bs) ∷ s) (suc room) e n = ground (arith, length-drop room bs)

-- All bytes that the script delivers.
unfoldable pub bytes_of : Stream → Bytes
bytes_of [] = []
bytes_of (fail e ∷ s) = bytes_of s
bytes_of (chunk bs ∷ s) = bs ++ bytes_of s

pub bytes_of-read :
    (s : Stream) (room : ℕ) {bs : Bytes}
    → (read s room).0 ≡ ok bs
    → bytes_of s ≡ bs ++ bytes_of (read s room).1
unfolding read bytes_of
bytes_of-read [] room e = ground arith
bytes_of-read (fail k ∷ s) room e = cc
bytes_of-read (chunk xs ∷ s) room {bs} e = elim (Bool-cases (leb (length xs) room)) [
  | inl f ↦ ground arith
  | inr f ↦ ground (
    arith,
    ap (λ l. l ++ bytes_of s) (take-append-drop room xs),
    append_assoc (take room xs) (drop room xs) (bytes_of s),
  )
]
