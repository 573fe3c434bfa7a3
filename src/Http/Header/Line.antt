-- ===== src/Http/Header/Line.antt =====
-- `parse_header` of crates/net/http/src/parse.rs takes one line off the buffer, or nothing.
use hala_rs.Base.{
  ℕ, ◌+◌, ◌≤◌, Option, none, some, Outcome, ok, err, ◌>>=◌, arith, inl, inr, length, Option-cases,
}
use hala_rs.Io.ReadBuf.{BytesMut, ReadBuf, chunk, split_to}
use hala_rs.Http.Api.{ParseError, IsLocal, HttpCrate}
use hala_rs.Http.Suffix.{Left, Left-refl, Left-trans, Left-weaken}
use hala_rs.Http.Header.Laws.{Left-split_to, length-split_to, header_span-le}
use hala_rs.Http.Header.{Span, header_span, trim_suffix_spaces, take_header, parse_header}

-- The least that `parse_header` takes: a byte if it found a line.
abbrev pub taken : {A : Type 0} → Option A → ℕ
taken none = 0
taken (some a) = 1

module _ {M : BytesMut} where
  -- A result leaves a suffix of the buffer, less at least `k x` bytes.
  abbrev pub Leaves :
      {X : Type 0} → (X → ℕ) → ReadBuf M → Outcome ParseError (X × ReadBuf M) → Type 0
  Leaves k b (ok (x, b')) = Left (k x) (chunk b) (chunk b')
  Leaves k b (err e) = IsLocal e

  -- The four cuts of a header line, from the front.
  Left-cuts :
      (b : ReadBuf M) (s : Span)
      → s.name_offset + s.name_len + 1 + s.value_offset + s.value_len ≤ length (chunk b)
      → let b1 = (split_to b s.name_offset).1 in
        let b2 = (split_to b1 s.name_len).1 in
        let b3 = (split_to b2 (s.value_offset + 1)).1 in
        Left 1 (chunk b) (chunk (split_to b3 s.value_len).1)
  Left-cuts b s h =
      let b1 = (split_to b s.name_offset).1 in
      let b2 = (split_to b1 s.name_len).1 in
      let b3 = (split_to b2 (s.value_offset + 1)).1 in
      let n1 = length-split_to b s.name_offset (omega arith) in
      let n2 = length-split_to b1 s.name_len (omega arith) in
      let n3 = length-split_to b2 (s.value_offset + 1) (omega arith) in
      Left-weaken (omega arith) (
        Left-trans (Left-split_to b s.name_offset (omega arith)) (
          Left-trans (Left-split_to b1 s.name_len (omega arith)) (
            Left-trans (Left-split_to b2 (s.value_offset + 1) (omega arith))
              (Left-split_to b3 s.value_len (omega arith)))))

  module _ (H : HttpCrate) where
    take_header-Leaves :
        (b : ReadBuf M) (s : Span)
        → Left 1 (chunk b) (
            chunk
              (split_to
                (split_to
                  (split_to (split_to b s.name_offset).1 s.name_len).1
                  (s.value_offset + 1)).1
                s.value_len).1)
        → Leaves (λ _. 1) b (take_header H b s)
    unfolding take_header
    take_header-Leaves b s cut =
        let (raw_name, b2) = split_to (split_to b s.name_offset).1 s.name_len in
        let (raw_value, b4) = split_to (split_to b2 (s.value_offset + 1)).1 s.value_len in
        elim (Option-cases (H.header_name_from_bytes (M.as_ref (trim_suffix_spaces M raw_name)))) [
          | inl e ↦ rw (e, take_header) tt
          | inr (name, e) ↦
              elim (Option-cases
                (H.header_value_from_maybe_shared (M.as_ref (trim_suffix_spaces M raw_value)))) [
                  | inl f ↦ rw (e, f, take_header) tt
                  | inr (value, f) ↦ rw (e, f, take_header) cut
                ]
        ]

    pub parse_header-Leaves : (b : ReadBuf M) → Leaves taken b (parse_header H b)
    unfolding parse_header
    parse_header-Leaves b = elim (Option-cases (header_span (chunk b))) [
      | inl e ↦ rw (e, parse_header) (Left-refl (chunk b))
      | inr (s, e) ↦
          rw (e, parse_header)
            (found (take_header H b s)
              (take_header-Leaves b s (Left-cuts b s (header_span-le (chunk b) s e))))
    ]
      where
        found :
            (r : Outcome ParseError ((H.HeaderName × H.HeaderValue) × ReadBuf M))
            → Leaves (λ _. 1) b r
            → Leaves taken b (r >>= λ x. ok (some x.0, x.1))
        found (ok (h, b')) l = l
        found (err e) l = l
