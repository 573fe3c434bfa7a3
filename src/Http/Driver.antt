-- ===== src/Http/Driver.antt =====
-- The loop that `Requester::parse` and `Responser::parse` of crates/net/http/src/parse.rs share,
-- over the `match` on the parser's state as a parameter. `none` means that the fuel ran out.
pub mod Total
pub mod Conserve
pub mod Rounds
use hala_rs.Base.{
  ℕ, zero, suc, ◌+◌, ◌<◌, ◌≡◌, Bool, true, false, Option, none, some, Outcome, ok, err, ◌==◌,
  if◌then◌else◌, length,
}
use hala_rs.Io.ReadBuf.{Bytes, BytesMut, ReadBuf, chunk, chunk_mut, filled}
use hala_rs.Io.Stream.{Stream, read, weight}
use hala_rs.Io.Error.{ErrorKind}
use hala_rs.Http.Suffix.{Left}
use hala_rs.Http.Api.{ParseError, IsLocal, parse_buf_overflow, io_error, eof, Config}

-- Where a round of the inner loop goes on: the next round, or behind the loop of that label.
pub data Flow : Type 0 where
  next_round break_inner break_out : Flow

-- How the inner loop ended: its own label, or that of the loop around it.
pub data Exit : Type 0 where
  inner_ended out_ended : Exit

-- What a round leaves of the buffer is a suffix. If the loop goes on, the bytes left and the rank of
-- the parser have fallen together.
abbrev pub Round :
    {M : BytesMut} {P : Type 0}
    → (P → ℕ)
    → P
    → ReadBuf M
    → Outcome ParseError (Flow × P × ReadBuf M)
    → Type 0
Round rank p b (ok (next_round, p', b')) =
    Left 0 (chunk b) (chunk b') × (length (chunk b') + rank p' < length (chunk b) + rank p)
Round rank p b (ok (break_inner, p', b')) = Left 0 (chunk b) (chunk b')
Round rank p b (ok (break_out, p', b')) = Left 0 (chunk b) (chunk b')
Round rank p b (err e) = IsLocal e

-- A parser with the state `P`.
pub record Machine (M : BytesMut) (P : Type 0) : Type 0 where
  pub step : P → ReadBuf M → Outcome ParseError (Flow × P × ReadBuf M)
  pub is_finished : P → Bool
  pub rank : P → ℕ
  pub round : (p : P) (b : ReadBuf M) → Round rank p b (step p b)

module _ {M : BytesMut} {P : Type 0} (m : Machine M P) where
  abbrev pub Parsed : Type 0
  Parsed = Option (Outcome ParseError (Exit × P × ReadBuf M))

  -- Behind the `match` of a round: `?`, `break 'inner`, `break 'out`, or the next round.
  abbrev pub after_step :
      (P → ReadBuf M → Parsed) → Outcome ParseError (Flow × P × ReadBuf M) → Parsed
  after_step again (err e) = some (err e)
  after_step again (ok (next_round, p, b)) = again p b
  after_step again (ok (break_inner, p, b)) = some (ok (inner_ended, p, b))
  after_step again (ok (break_out, p, b)) = some (ok (out_ended, p, b))

  -- `'inner: while read_buf.chunk().len() > 0`
  unfoldable pub inner_loop : ℕ → P → ReadBuf M → Parsed
  inner_loop zero p b = none
  inner_loop (suc fuel) p b = elim (length (chunk b) == 0) [
    | true ↦ some (ok (inner_ended, p, b))
    | false ↦ after_step (inner_loop fuel) (m.step p b)
  ]

  -- What the body of `'out` does with the bytes that a read delivered.
  unfoldable pub consume : P → ReadBuf M → Bytes → Parsed
  unfolding inner_loop
  consume p b bs =
      let filled_buf = filled b bs in
      inner_loop (suc (length (chunk filled_buf) + m.rank p)) p filled_buf

  abbrev pub Looped : Type 0
  Looped = Option (Outcome ParseError (P × ReadBuf M × Stream))

  -- Behind the inner loop: out of both loops, or the next read.
  abbrev pub after_inner : (P → ReadBuf M → Looped) → Stream → Parsed → Looped
  after_inner again s none = none
  after_inner again s (some (err e)) = some (err e)
  after_inner again s (some (ok (out_ended, p, b))) = some (ok (p, b, s))
  after_inner again s (some (ok (inner_ended, p, b))) = elim (m.is_finished p) [
    | true ↦ some (ok (p, b, s))
    | false ↦ again p b
  ]

  -- Behind `self.stream.read(chunk_mut).await`.
  abbrev pub after_read :
      (P → ReadBuf M → Looped) → P → ReadBuf M → Outcome ErrorKind Bytes → Stream → Looped
  after_read again p b (err e) s = some (err (io_error e))
  after_read again p b (ok bs) s = elim (length bs == 0) [
    | true ↦ some (err eof)
    | false ↦ after_inner again s (consume p b bs)
  ]

  -- `'out: while self.state != Finished`
  unfoldable pub out_loop : ℕ → Config → P → ReadBuf M → Stream → Looped
  out_loop zero config p b s = none
  out_loop (suc fuel) config p b s = elim (m.is_finished p) [
    | true ↦ some (ok (p, b, s))
    | false ↦ elim ((chunk_mut b).1 == 0) [
      | true ↦ some (err (parse_buf_overflow config.parsing_headers_max_buf))
      | false ↦
          let (r, s') = read s (chunk_mut b).1 in
          after_read (λ p' b'. out_loop fuel config p' b' s') p (chunk_mut b).0 r s'
    ]
  ]

  -- The whole loop of `parse`, with fuel for every read that the stream has left.
  unfoldable pub run : Config → P → ReadBuf M → Stream → Looped
  unfolding out_loop
  run config p b s = out_loop (suc (weight s)) config p b s
