-- ===== src/Http/Driver/Total.antt =====
-- The parse loop of crates/net/http/src/parse.rs ends for every machine that makes progress.
use hala_rs.Base.{
  ℕ, zero, suc, ◌+◌, ◌<◌, ◌≡◌, ◌≢◌, refl, true, false, Option, none, some, Outcome, ok, err, [],
  ◌∷◌, arith, ◌==◌, length, inl, inr, Bool-cases,
}
use hala_rs.Io.ReadBuf.{Bytes, BytesMut, ReadBuf, chunk, chunk_mut, filled}
use hala_rs.Io.Stream.{Stream, read, weight, weight-read}
use hala_rs.Io.Error.{ErrorKind}
use hala_rs.Http.Suffix.{Left}
use hala_rs.Http.Api.{ParseError, Config}
use hala_rs.Http.Driver.{
  Machine, next_round, break_inner, break_out, inner_ended, out_ended, Parsed, Flow, Looped,
  after_step, after_inner, after_read, inner_loop, consume, out_loop, run,
}

suc-ne-zero : (n : ℕ) → (suc n == 0) ≡ false
suc-ne-zero n = ground arith

-- The fuel did not run out.
abbrev pub Ends : {A : Type 0} → Option A → Type 0
Ends none = ⊥
Ends (some a) = Unit

module _ {M : BytesMut} {P : Type 0} (m : Machine M P) where
  pub progress :
      (p p' : P) (b b' : ReadBuf M)
      → m.step p b ≡ ok (next_round, p', b')
      → length (chunk b') + m.rank p' < length (chunk b) + m.rank p
  progress p p' b b' e =
      let fell : Left 0 (chunk b) (chunk b')
          × (length (chunk b') + m.rank p' < length (chunk b) + m.rank p) =
        rw e at (m.round p b) in
      fell.1

  after_step-Ends :
      (again : P → ReadBuf M → Parsed m) (r : Outcome ParseError (Flow × P × ReadBuf M))
      → ((p : P) (b : ReadBuf M) → r ≡ ok (next_round, p, b) → Ends (again p b))
      → Ends (after_step m again r)
  after_step-Ends again (err e) h = tt
  after_step-Ends again (ok (next_round, p, b)) h = h p b refl
  after_step-Ends again (ok (break_inner, p, b)) h = tt
  after_step-Ends again (ok (break_out, p, b)) h = tt

  inner_loop-Ends :
      (fuel : ℕ) (p : P) (b : ReadBuf M)
      → length (chunk b) + m.rank p < fuel
      → Ends (inner_loop m fuel p b)
  unfolding inner_loop
  inner_loop-Ends zero p b h = elim h [ ]
  inner_loop-Ends (suc fuel) p b h = elim (Bool-cases (length (chunk b) == 0)) [
    | inl e ↦ rw (e, inner_loop) tt
    | inr e ↦
        rw (e, inner_loop)
          (after_step-Ends (inner_loop m fuel) (m.step p b)
            (λ p' b' q. inner_loop-Ends fuel p' b' (omega (arith, progress p p' b b' q))))
  ]

  consume-Ends : (p : P) (b : ReadBuf M) (bs : Bytes) → Ends (consume m p b bs)
  unfolding consume
  consume-Ends p b bs =
      inner_loop-Ends (suc (length (chunk (filled b bs)) + m.rank p)) p (filled b bs) (omega arith)

  after_inner-Ends :
      (again : P → ReadBuf M → Looped m) (s : Stream) (r : Parsed m)
      → Ends r
      → ((p : P) (b : ReadBuf M) → Ends (again p b))
      → Ends (after_inner m again s r)
  after_inner-Ends again s none h k = h
  after_inner-Ends again s (some (err e)) h k = tt
  after_inner-Ends again s (some (ok (out_ended, p, b))) h k = tt
  after_inner-Ends again s (some (ok (inner_ended, p, b))) h k =
      elim (m.is_finished p)
        as (λ t.
          Ends {A = Outcome ParseError (P × ReadBuf M × Stream)}
            (elim t [ true ↦ some (ok (p, b, s)) | false ↦ again p b ])) [
              | true ↦ tt
              | false ↦ k p b
            ]

  after_read-Ends :
      (again : P → ReadBuf M → Looped m) (p : P) (b : ReadBuf M) (r : Outcome ErrorKind Bytes)
      (s : Stream)
      → ((bs : Bytes) → r ≡ ok bs → bs ≢ [] → (p : P) (b : ReadBuf M) → Ends (again p b))
      → Ends (after_read m again p b r s)
  after_read-Ends again p b (err e) s k = tt
  after_read-Ends again p b (ok []) s k = tt
  after_read-Ends again p b (ok (c ∷ cs)) s k =
      rw (suc-ne-zero (length cs), after_read)
        (after_inner-Ends again s _ (consume-Ends p b (c ∷ cs)) (k (c ∷ cs) refl (λ e. cc)))

  out_loop-Ends :
      (fuel : ℕ) (config : Config) (p : P) (b : ReadBuf M) (s : Stream)
      → weight s < fuel
      → Ends (out_loop m fuel config p b s)
  unfolding out_loop
  out_loop-Ends zero config p b s h = elim h [ ]
  out_loop-Ends (suc fuel) config p b s h = elim (Bool-cases (m.is_finished p)) [
    | inl e ↦ rw (e, out_loop) tt
    | inr e ↦ elim (Bool-cases ((chunk_mut b).1 == 0)) [
      | inl z ↦ rw (e, z, out_loop) tt
      | inr nz ↦
          rw (e, nz, out_loop)
            (after_read-Ends (λ p' b'. out_loop m fuel config p' b' (read s (chunk_mut b).1).1) p
              (chunk_mut b).0 (read s (chunk_mut b).1).0 _
              (λ bs q n p' b'.
                out_loop-Ends fuel config p' b' _
                  (omega (arith, weight-read s (chunk_mut b).1 q n))))
    ]
  ]

  -- The parse loop ends on every stream, whatever its reads deliver: with a parser, an error of the
  -- parser, an error of the stream or the end of it.
  pub run-Ends : (config : Config) (p : P) (b : ReadBuf M) (s : Stream) → Ends (run m config p b s)
  unfolding run
  run-Ends config p b s = out_loop-Ends (suc (weight s)) config p b s (omega arith)
