-- ===== src/Http/Driver/Conserve.antt =====
-- The parse loop of crates/net/http/src/parse.rs neither loses nor repeats a byte beyond
-- those that its steps take.
use hala_rs.Base.{
  ℕ, zero, suc, ◌+◌, ◌≡◌, refl, sym, ap, ◌∙◌, true, false, none, some, [], Outcome, ok, err, ◌++◌,
  append-nil, append_assoc, ◌==◌, length, inl, inr, Bool-cases,
}
use hala_rs.Io.Error.{ErrorKind}
use hala_rs.Io.ReadBuf.{Bytes, BytesMut, ReadBuf, chunk, chunk_mut, filled}
use hala_rs.Io.Stream.{Stream, read, weight, bytes_of, bytes_of-read, length-read}
use hala_rs.Http.Suffix.{Left}
use hala_rs.Http.Api.{ParseError, IsLocal, Config}
use hala_rs.Http.Driver.{
  Machine, Round, Flow, next_round, break_inner, break_out, inner_ended, out_ended, Parsed, Looped,
  after_step, after_inner, after_read, inner_loop, consume, out_loop, run,
}

module _ {M : BytesMut} {P : Type 0} (m : Machine M P) where
  -- The bytes that the parser's steps take off their buffers on the way from one state to another.
  pub data Consumes : P → Bytes → P → Type 0 where
    stays : {p : P} → Consumes p [] p
    takes :
        {p p' q : P} {b b' : ReadBuf M} {flow : Flow} (bs head : Bytes)
        → m.step p b ≡ ok (flow, p', b')
        → chunk b ≡ bs ++ chunk b'
        → Consumes p' head q
        → Consumes p (bs ++ head) q

  -- `ys` is what is left of `xs` when the parser has gone from `p` to `q`.
  abbrev pub Consumed : P → Bytes → P → Bytes → Type 0
  Consumed p xs q ys = (head : Bytes) × (xs ≡ head ++ ys) × Consumes p head q

  Consumes-append :
      {p q t : P} {xs ys : Bytes} → Consumes p xs q → Consumes q ys t → Consumes p (xs ++ ys) t
  Consumes-append stays d = d
  Consumes-append {ys = ys} (takes bs head e l c) d =
      rw (append_assoc bs head ys) (takes bs (head ++ ys) e l (Consumes-append c d))

  Consumed-refl : (p : P) (xs : Bytes) → Consumed p xs p xs
  Consumed-refl p xs = ([], refl, stays)

  Consumed-trans :
      {p q t : P} {xs ys zs : Bytes} → Consumed p xs q ys → Consumed q ys t zs → Consumed p xs t zs
  Consumed-trans {zs = zs} (a, e, c) (b, f, d) =
      (a ++ b, e ∙ ap (◌++◌ a) f ∙ sym (append_assoc a b zs), Consumes-append c d)

  Consumed-append :
      {p q : P} {xs ys : Bytes} (zs : Bytes)
      → Consumed p xs q ys
      → Consumed p (xs ++ zs) q (ys ++ zs)
  Consumed-append {ys = ys} zs (a, e, c) = (a, ap (λ l. l ++ zs) e ∙ append_assoc a ys zs, c)

  step-Consumed :
      {p q : P} {b b' : ReadBuf M} {flow : Flow}
      → m.step p b ≡ ok (flow, q, b')
      → Left 0 (chunk b) (chunk b')
      → Consumed p (chunk b) q (chunk b')
  step-Consumed {b' = b'} e (bs, l, k) =
      (bs ++ [], l ∙ ap (λ x. x ++ chunk b') (sym (append-nil bs)), takes bs [] e l stays)

  -- The inner loop leaves what the steps have not taken.
  abbrev Kept : P → Bytes → Parsed m → Type 0
  Kept q xs none = Unit
  Kept q xs (some (ok (x, p, b))) = Consumed q xs p (chunk b)
  Kept q xs (some (err e)) = IsLocal e

  Kept-trans :
      (q t : P) (xs ys : Bytes) (r : Parsed m) → Consumed q xs t ys → Kept t ys r → Kept q xs r
  Kept-trans q t xs ys none l h = tt
  Kept-trans q t xs ys (some (ok (x, p, b))) l h = Consumed-trans l h
  Kept-trans q t xs ys (some (err e)) l h = h

  after_step-Kept :
      (again : P → ReadBuf M → Parsed m) (p : P) (b : ReadBuf M)
      (r : Outcome ParseError (Flow × P × ReadBuf M))
      → m.step p b ≡ r
      → Round m.rank p b r
      → ((p : P) (c : ReadBuf M) → Kept p (chunk c) (again p c))
      → Kept p (chunk b) (after_step m again r)
  after_step-Kept again q b (err e) u h k = h
  after_step-Kept again q b (ok (next_round, p, c)) u h k =
      Kept-trans q p (chunk b) (chunk c) (again p c) (step-Consumed u h.0) (k p c)
  after_step-Kept again q b (ok (break_inner, p, c)) u h k = step-Consumed u h
  after_step-Kept again q b (ok (break_out, p, c)) u h k = step-Consumed u h

  inner_loop-Kept : (fuel : ℕ) (p : P) (b : ReadBuf M) → Kept p (chunk b) (inner_loop m fuel p b)
  unfolding inner_loop
  inner_loop-Kept zero p b = tt
  inner_loop-Kept (suc fuel) p b = elim (Bool-cases (length (chunk b) == 0)) [
    | inl e ↦ rw (e, inner_loop) (Consumed-refl p (chunk b))
    | inr e ↦
        rw (e, inner_loop)
          (after_step-Kept (inner_loop m fuel) p b (m.step p b) refl (m.round p b)
            (inner_loop-Kept fuel))
  ]

  -- What the whole loop returns for the bytes `xs` ahead of it.
  abbrev pub Sound : P → Bytes → Looped m → Type 0
  Sound q xs none = Unit
  Sound q xs (some (ok (p, b, s))) = Consumed q xs p (chunk b ++ bytes_of s)
  Sound q xs (some (err e)) = Unit

  Sound-trans :
      (q t : P) (xs ys : Bytes) (r : Looped m) → Consumed q xs t ys → Sound t ys r → Sound q xs r
  Sound-trans q t xs ys none l h = tt
  Sound-trans q t xs ys (some (ok (p, b, s))) l h = Consumed-trans l h
  Sound-trans q t xs ys (some (err e)) l h = tt

  after_inner-Sound :
      (again : P → ReadBuf M → Looped m) (q : P) (xs : Bytes) (s : Stream) (r : Parsed m)
      → Kept q xs r
      → ((p : P) (b : ReadBuf M) → Sound p (chunk b ++ bytes_of s) (again p b))
      → Sound q (xs ++ bytes_of s) (after_inner m again s r)
  after_inner-Sound again q xs s none h k = tt
  after_inner-Sound again q xs s (some (err e)) h k = tt
  after_inner-Sound again q xs s (some (ok (out_ended, p, b))) h k = Consumed-append (bytes_of s) h
  after_inner-Sound again q xs s (some (ok (inner_ended, p, b))) h k =
      let l : Consumed q (xs ++ bytes_of s) p (chunk b ++ bytes_of s) =
        Consumed-append (bytes_of s) h in
      elim (m.is_finished p)
        as (λ t.
          Sound q (xs ++ bytes_of s)
            (elim t as (λ _. Looped m) [ true ↦ some (ok (p, b, s)) | false ↦ again p b ])) [
              | true ↦ l
              | false ↦ Sound-trans q p _ (chunk b ++ bytes_of s) (again p b) l (k p b)
            ]

  after_read-Sound :
      (again : P → ReadBuf M → Looped m) (p : P) (b : ReadBuf M) (xs : Bytes)
      (r : Outcome ErrorKind Bytes) (s : Stream)
      → ((bs : Bytes) → r ≡ ok bs → xs ≡ chunk (filled b bs) ++ bytes_of s)
      → ((p : P) (b : ReadBuf M) → Sound p (chunk b ++ bytes_of s) (again p b))
      → Sound p xs (after_read m again p b r s)
  after_read-Sound again p b xs (err e) s q k = tt
  after_read-Sound again p b xs (ok bs) s q k = elim (Bool-cases (length bs == 0)) [
    | inl z ↦ rw (z, after_read) tt
    | inr nz ↦
        rw (nz, after_read, q bs refl)
          (after_inner-Sound again p (chunk (filled b bs)) s (consume m p b bs)
            ((unfold consume in
              inner_loop-Kept (suc (length (chunk (filled b bs)) + m.rank p)) p (filled b bs)))
            k)
  ]

  out_loop-Sound :
      (fuel : ℕ) (config : Config) (p : P) (b : ReadBuf M) (s : Stream)
      → Sound p (chunk b ++ bytes_of s) (out_loop m fuel config p b s)
  unfolding out_loop
  out_loop-Sound zero config p b s = tt
  out_loop-Sound (suc fuel) config p b s = elim (Bool-cases (m.is_finished p)) [
    | inl e ↦ rw (e, out_loop) (Consumed-refl p (chunk b ++ bytes_of s))
    | inr e ↦ elim (Bool-cases ((chunk_mut b).1 == 0)) [
      | inl z ↦ rw (e, z, out_loop) tt
      | inr nz ↦
          let (r, s') = read s (chunk_mut b).1 in
          rw (e, nz, out_loop)
            (after_read-Sound (λ p' b'. out_loop m fuel config p' b' s') p (chunk_mut b).0 _ r s'
              (λ bs q.
                ap (◌++◌ (chunk b)) (bytes_of-read s _ q)
                ∙ sym (append_assoc (chunk b) bs (bytes_of s'))
                ∙ ap (λ l. l ++ bytes_of s')
                    (sym (M.as_ref-advance_mut b.bytes bs (length-read s _ q))))
              (λ p' b'. out_loop-Sound fuel config p' b' s'))
    ]
  ]

  pub run-Sound :
      (config : Config) (p : P) (b : ReadBuf M) (s : Stream)
      → Sound p (chunk b ++ bytes_of s) (run m config p b s)
  unfolding run
  run-Sound config p b s = out_loop-Sound (suc (weight s)) config p b s
