-- ===== src/Http/Driver/Rounds.antt =====
-- Runs of the inner parse loop of crates/net/http/src/parse.rs, as sequences of its rounds.
use hala_rs.Base.{
  ℕ, zero, suc, ◌+◌, ◌≤◌, ◌<◌, ◌≡◌, ◌≢◌, true, false, some, ok, arith, ◌==◌, length, ◌∷◌, leb,
}
use hala_rs.Io.ReadBuf.{Bytes, BytesMut, ReadBuf, chunk, chunk_mut, filled}
use hala_rs.Io.Stream.{Stream, Delivery, read}
use hala_rs.Http.Api.{Config}
use hala_rs.Http.Driver.{
  Machine, next_round, break_inner, inner_ended, inner_loop, consume, out_loop, run, after_read,
  after_inner,
}
use hala_rs.Http.Driver.Total.{progress}

module _ {M : BytesMut} {P : Type 0} (m : Machine M P) where
  -- Rounds that go on lead from the one pair of parser and buffer to the other.
  pub data Rounds (q : P) (c : ReadBuf M) : P → ReadBuf M → Type 0 where
    here : Rounds q c q c
    more :
        {p p' : P} {b b' : ReadBuf M}
        → length (chunk b) ≢ 0
        → m.step p b ≡ ok (next_round, p', b')
        → Rounds q c p' b'
        → Rounds q c p b

  pub inner_loop-Rounds :
      {q q' : P} {c c' : ReadBuf M} {p : P} {b : ReadBuf M}
      → Rounds q c p b
      → m.step q c ≡ ok (break_inner, q', c')
      → length (chunk c) ≢ 0
      → (fuel : ℕ) → length (chunk b) + m.rank p < fuel
      → inner_loop m fuel p b ≡ some (ok (inner_ended, q', c'))
  unfolding inner_loop
  inner_loop-Rounds here e n zero h = elim h [ ]
  inner_loop-Rounds {c = c} here e n (suc fuel) h =
      let nonempty : (length (chunk c) == 0) ≡ false = ground arith in rw (nonempty, e, inner_loop)
  inner_loop-Rounds (more some_left f r) e n zero h = elim h [ ]
  inner_loop-Rounds (more {p} {p'} {b} {b'} some_left f r) e n (suc fuel) h =
      let shorter = progress m p p' b b' f in
      let nonempty : (length (chunk b) == 0) ≡ false = ground arith in
      rw (nonempty, f, inner_loop) (inner_loop-Rounds r e n fuel (omega arith))

  -- One read that delivers all of `bs`, on whose bytes the rounds lead to a finished parser.
  pub run-Rounds :
      {q q' : P} {c c' : ReadBuf M} (config : Config) (p : P) (b : ReadBuf M) (bs : Bytes)
      (s : Stream)
      → m.is_finished p ≡ false
      → length bs ≢ 0
      → length bs ≤ (chunk_mut b).1
      → Rounds q c p (filled (chunk_mut b).0 bs)
      → m.step q c ≡ ok (break_inner, q', c')
      → length (chunk c) ≢ 0
      → m.is_finished q' ≡ true
      → run m config p b (Delivery.chunk bs ∷ s) ≡ some (ok (q', c', s))
  unfolding run out_loop read consume
  run-Rounds {q' = q'} {c' = c'} config p b bs s start some_bytes fits rounds last n over =
      let buf = filled (chunk_mut b).0 bs in
      let room : ((chunk_mut b).1 == 0) ≡ false = ground arith in
      let all : leb (length bs) (chunk_mut b).1 ≡ true = ground arith in
      let some_read : (length bs == 0) ≡ false = ground arith in
      let ended =
        inner_loop-Rounds rounds last n (suc (length (chunk buf) + m.rank p)) (omega arith) in
      rw
        (start, room, all, some_read, ended, over, out_loop, read, after_read, after_inner, consume)

  -- Rounds that empty the buffer end the inner loop by its condition.
  pub inner_loop-Rounds_empty :
      {q : P} {c : ReadBuf M} {p : P} {b : ReadBuf M}
      → Rounds q c p b
      → length (chunk c) ≡ 0
      → (fuel : ℕ) → length (chunk b) + m.rank p < fuel
      → inner_loop m fuel p b ≡ some (ok (inner_ended, q, c))
  unfolding inner_loop
  inner_loop-Rounds_empty here n zero h = elim h [ ]
  inner_loop-Rounds_empty {c = c} here n (suc fuel) h =
      let empty : (length (chunk c) == 0) ≡ true = ground arith in rw (empty, inner_loop)
  inner_loop-Rounds_empty (more some_left f r) n zero h = elim h [ ]
  inner_loop-Rounds_empty (more {p} {p'} {b} {b'} some_left f r) n (suc fuel) h =
      let shorter = progress m p p' b b' f in
      let nonempty : (length (chunk b) == 0) ≡ false = ground arith in
      rw (nonempty, f, inner_loop) (inner_loop-Rounds_empty r n fuel (omega arith))

  -- A read that leaves the parser unfinished leads on to the next one.
  pub out_loop_next :
      (fuel : ℕ) (config : Config) (p q : P) (b c : ReadBuf M) (bs : Bytes) (s : Stream)
      → m.is_finished p ≡ false
      → length bs ≢ 0
      → length bs ≤ (chunk_mut b).1
      → consume m p (chunk_mut b).0 bs ≡ some (ok (inner_ended, q, c))
      → m.is_finished q ≡ false
      → out_loop m (suc fuel) config p b (Delivery.chunk bs ∷ s) ≡ out_loop m fuel config q c s
  unfolding out_loop read
  out_loop_next fuel config p q b c bs s start some_bytes fits consumed unfinished =
      let room : ((chunk_mut b).1 == 0) ≡ false = ground arith in
      let all : leb (length bs) (chunk_mut b).1 ≡ true = ground arith in
      let some_read : (length bs == 0) ≡ false = ground arith in
      rw (
        start, room, all, some_read, consumed, unfinished, all, out_loop, read, after_read,
        after_inner,
      )
