-- ===== src/Http/Body/Collect.antt =====
-- `BodyReader::into_bytes` of crates/net/http/src/body.rs collects the whole body.
use hala_rs.Base.{
  ℕ, zero, suc, ◌<◌, ◌≡◌, ◌≢◌, refl, sym, ap, ◌∙◌, false, some, ok, [], ◌∷◌, ◌++◌, append-nil,
  append_assoc, arith, inl, inr, ◌⊎◌, ◌==◌, length, take, length-drop, leb, if◌then◌else◌,
  Bool-cases,
}
use hala_rs.Io.ReadBuf.{Bytes, BytesMut, ReadBuf, chunk, chunk_mut, filled, with_capacity}
use hala_rs.Io.Stream.{
  Stream, Delivery, fail, read, weight, weight-read, bytes_of, bytes_of-read, length-read,
}
use hala_rs.Http.Body.{BodyReader, into_read, after_read, into_bytes_loop, into_bytes}

-- A stream whose reads neither fail nor deliver nothing before its end.
abbrev pub Solid : Stream → Type 0
Solid [] = Unit
Solid (fail e ∷ s) = ⊥
Solid (Delivery.chunk bs ∷ s) = (bs ≢ []) × Solid s

Solid-read : (s : Stream) (room : ℕ) → Solid s → Solid (read s (suc room)).1
unfolding read
Solid-read [] room h = tt
Solid-read (fail e ∷ s) room h = absurd h
Solid-read (Delivery.chunk [] ∷ s) room h = absurd (h.0 refl)
Solid-read (Delivery.chunk (b ∷ bs) ∷ s) room h =
    elim (Bool-cases (leb (length (b ∷ bs)) (suc room))) [
      | inl e ↦ rw e (h.1)
      | inr e ↦
          rw e ((λ d. absurd (omega (arith, ap length d, length-drop room bs, not_le e))), h.1)
    ]
  where
    not_le : leb (length (b ∷ bs)) (suc room) ≡ false → suc room < length (b ∷ bs)
    not_le e = ground arith

-- A read of such a stream delivers bytes, but at its end.
Solid-delivers :
    (s : Stream) (room : ℕ)
    → Solid s
    → ((s ≡ []) × ((read s (suc room)).0 ≡ ok []))
      ⊎ ((b : ℕ) × (bs : Bytes) × ((read s (suc room)).0 ≡ ok (b ∷ bs)))
unfolding read
Solid-delivers [] room h = inl (refl, refl)
Solid-delivers (fail e ∷ s) room h = absurd h
Solid-delivers (Delivery.chunk [] ∷ s) room h = absurd (h.0 refl)
Solid-delivers (Delivery.chunk (b ∷ bs) ∷ s) room h =
    elim (Bool-cases (leb (length (b ∷ bs)) (suc room))) [
      | inl e ↦ inr (b, bs, rw e)
      | inr e ↦ inr (b, take room bs, rw e)
    ]

suc-ne-zero : (n : ℕ) → (suc n == 0) ≡ false
suc-ne-zero n = ground arith

module _ (M : BytesMut) (grows : (b : ReadBuf M) → (chunk_mut b).1 ≢ 0) where
  room_suc : (b : ReadBuf M) → (room : ℕ) × ((chunk_mut b).1 ≡ suc room)
  room_suc b = go _ refl
    where
      go : (n : ℕ) → (chunk_mut b).1 ≡ n → (room : ℕ) × ((chunk_mut b).1 ≡ suc room)
      go zero e = absurd (grows b e)
      go (suc n) e = (n, e)

  into_bytes_loop_lem :
      (fuel max : ℕ) (b : ReadBuf M) (s : Stream)
      → Solid s
      → weight s < fuel
      → (buf : M.Buf) × (into_bytes_loop M fuel max b s ≡ some (ok buf))
        × (M.as_ref buf ≡ chunk b ++ bytes_of s)
  unfolding into_bytes_loop bytes_of
  into_bytes_loop_lem zero max b s h lt = elim lt [ ]
  into_bytes_loop_lem (suc fuel) max b s h lt =
      let (room, e) = room_suc b in
      let nonzero : ((chunk_mut b).1 == 0) ≡ false = ground arith in
      elim (Solid-delivers s room h) [
        | inl (over, end) ↦ (
          (chunk_mut b).0.bytes,
          rw (nonzero, e, end, after_read, into_bytes_loop),
          M.as_ref-chunk_mut b.bytes ∙ sym (rw (over, bytes_of) (append-nil (chunk b))),
        )
        | inr (c, cs, got) ↦
            let got' : (read s (chunk_mut b).1).0 ≡ ok (c ∷ cs) = rw e got in
            let (buf, ran, all) =
              into_bytes_loop_lem fuel max (filled (chunk_mut b).0 (c ∷ cs))
                (read s (chunk_mut b).1).1 (rw e (Solid-read s room h))
                (omega (arith, weight-read s (chunk_mut b).1 got' (λ z. cc))) in
            (
              buf,
              rw (nonzero, got', suc-ne-zero (length cs), after_read, into_bytes_loop) ran,
              all
                  ∙ ap (λ l. l ++ bytes_of (read s (chunk_mut b).1).1)
                      (M.as_ref-advance_mut b.bytes (c ∷ cs) (length-read s _ got'))
                  ∙ append_assoc (chunk b) (c ∷ cs) _
                  ∙ ap (◌++◌ (chunk b)) (sym (bytes_of-read s _ got')),
            )
      ]

Solid-into_read : (r : BodyReader) → Solid r.stream → Solid (into_read r)
unfolding into_read
Solid-into_read r h = elim (Bool-cases (length r.cached == 0)) [
  | inl e ↦ rw (e, into_read) h
  | inr e ↦ rw (e, into_read) ((λ z. absurd (omega (arith, ap length z, nonzero e))), h)
]
  where
    nonzero : (length r.cached == 0) ≡ false → length r.cached ≢ 0
    nonzero e = ground arith

bytes_of-into_read : (r : BodyReader) → bytes_of (into_read r) ≡ r.cached ++ bytes_of r.stream
unfolding into_read bytes_of
bytes_of-into_read r = go r.cached
  where
    go :
        (cached : Bytes)
        → bytes_of (if length cached == 0 then r.stream else Delivery.chunk cached ∷ r.stream)
          ≡ cached ++ bytes_of r.stream
    go [] = refl
    go (c ∷ cs) = rw (suc-ne-zero (length cs))

-- Let the slice that `chunk_mut` returns never be empty, as its documentation promises of a growing
-- buffer, and let no read of the stream fail or deliver nothing before its end. Then `into_bytes`
-- returns the cached bytes and all that the stream delivers, whatever `max_body_len` is.
pub into_bytes_all :
    (M : BytesMut)
    → ((b : ReadBuf M) → (chunk_mut b).1 ≢ 0)
    → (r : BodyReader) (max_body_len : ℕ) → Solid r.stream
    → (buf : M.Buf) × (into_bytes M r max_body_len ≡ some (ok buf))
      × (M.as_ref buf ≡ r.cached ++ bytes_of r.stream)
unfolding into_bytes
into_bytes_all M grows r max_body_len h =
    let (buf, ran, all) =
      into_bytes_loop_lem M grows (suc (weight (into_read r))) max_body_len
        (with_capacity max_body_len) (into_read r) (Solid-into_read r h) (omega arith) in
    (
      buf,
      ran,
      all
          ∙ ap (λ l. l ++ bytes_of (into_read r)) (M.as_ref-with_capacity max_body_len)
          ∙ bytes_of-into_read r,
    )
