-- ===== src/Http/Body.antt =====
-- crates/net/http/src/body.rs: the reader of a message body.
pub mod Collect
use mathlib.Core.Option
use hala_rs.Base.{
  ℕ, zero, suc, ◌+◌, ◌≤◌, ◌<◌, ◌≡◌, ◌≢◌, refl, sym, ap, ◌∙◌, Bool, true, false, Option, none, some,
  Outcome, ok, err, ok_or, List, [], ◌∷◌, ◌++◌, append-nil, append_assoc, arith, inl, inr, ◌==◌,
  if◌then◌else◌, length, length-append, take, drop, leb, Bool-cases, Outcome-cases,
}
use hala_rs.Io.Error.{ErrorKind}
use hala_rs.Io.ReadBuf.{
  Bytes, BytesMut, ReadBuf, chunk, chunk_mut, filled, with_capacity, into_bytes_mut,
}
use hala_rs.Io.Stream.{
  Stream, Delivery, read, weight, weight-read, bytes_of, bytes_of-read, length-read,
}
use hala_rs.Http.Api.{ParseError, parse_buf_overflow, io_error, serde_json_error}

pub record BodyReader : Type 0 where
  pub cached : Bytes
  pub stream : Stream

-- `Cursor::new(self.cached).chain(self.stream)`: the cursor, if it has bytes, and then the stream.
unfoldable pub into_read : BodyReader → Stream
into_read r = if length r.cached == 0 then r.stream else Delivery.chunk r.cached ∷ r.stream

module _ (M : BytesMut) where
  abbrev pub Collected : Type 0
  Collected = Option (Outcome ParseError M.Buf)

  -- Behind a read in the loop of `into_bytes`.
  abbrev pub after_read : (ReadBuf M → Collected) → ReadBuf M → Outcome ErrorKind Bytes → Collected
  after_read again b (err e) = some (err (io_error e))
  after_read again b (ok bs) = elim (length bs == 0) [
    | true ↦ some (ok (into_bytes_mut b none))
    | false ↦ again (filled b bs)
  ]

  -- The loop of `into_bytes`; `none` means that the fuel ran out.
  unfoldable pub into_bytes_loop : ℕ → ℕ → ReadBuf M → Stream → Collected
  into_bytes_loop zero max_body_len b s = none
  into_bytes_loop (suc fuel) max_body_len b s = elim ((chunk_mut b).1 == 0) [
    | true ↦ some (err (parse_buf_overflow max_body_len))
    | false ↦
        let (r, s') = read s (chunk_mut b).1 in
        after_read (λ b'. into_bytes_loop fuel max_body_len b' s') (chunk_mut b).0 r
  ]

unfoldable pub into_bytes : (M : BytesMut) → BodyReader → ℕ → Option (Outcome ParseError M.Buf)
unfolding into_bytes_loop into_read
into_bytes M r max_body_len =
    into_bytes_loop M (suc (weight (into_read r))) max_body_len (with_capacity max_body_len)
      (into_read r)

-- `from_slice` of serde_json on a body that was collected.
abbrev pub from_slice :
    {T : Type 0} (M : BytesMut)
    → (Bytes → Option T)
    → Option (Outcome ParseError M.Buf)
    → Option (Outcome ParseError T)
from_slice M parse none = none
from_slice M parse (some (err e)) = some (err e)
from_slice M parse (some (ok b)) = some (ok_or (parse (M.as_ref b)) serde_json_error)

unfoldable pub from_json_with :
    {T : Type 0} (M : BytesMut)
    → (Bytes → Option T)
    → BodyReader
    → ℕ
    → Option (Outcome ParseError T)
unfolding into_bytes
from_json_with M parse r max_body_len = from_slice M parse (into_bytes M r max_body_len)

unfoldable pub from_json :
    {T : Type 0} (M : BytesMut) → (Bytes → Option T) → BodyReader → Option (Outcome ParseError T)
unfolding from_json_with
from_json M parse r = from_json_with M parse r 4096
