-- ===== src/Http/Header/Laws.antt =====
-- What the shared functions of crates/net/http/src/parse.rs leave on the read buffer: always a
-- suffix of what stood there.
use hala_rs.Base.{
  ℕ, ◌+◌, ◌≤◌, ◌≡◌, sym, ap, some, arith, length, length-drop, length-take, take, drop,
  take-append-drop,
}
use hala_rs.Io.ReadBuf.{Bytes, BytesMut, ReadBuf, chunk, split_to}
use hala_rs.Http.Suffix.{Left, Left-weaken}
use hala_rs.Http.Scan
use hala_rs.Http.Scan.{is_colon, is_line_end}
use hala_rs.Http.Scan.Newlines.{line_ends, line_ends-le, line_ends-zero, skip_newlines_lem}
use hala_rs.Http.Scan.Laws.{skip_spaces-le, find_offset-lt}
use hala_rs.Http.Header.{Span, header_span, skip_newlines}

module _ {M : BytesMut} where
  pub Left-split_to :
      (b : ReadBuf M) (n : ℕ) → n ≤ length (chunk b) → Left n (chunk b) (chunk (split_to b n).1)
  Left-split_to b n h = (
    take n (chunk b),
    rw (M.split_to_rest b.bytes n h) (sym (take-append-drop n (chunk b))),
    omega (arith, length-take n (chunk b) h),
  )

  pub length-split_to :
      (b : ReadBuf M) (n : ℕ)
      → n ≤ length (chunk b)
      → length (chunk (split_to b n).1) + n ≡ length (chunk b)
  length-split_to b n h =
      omega (arith, ap length (M.split_to_rest b.bytes n h), length-drop n (chunk b))

  pub Left-skip_spaces :
      (b : ReadBuf M) → Left 0 (chunk b) (chunk (split_to b (Scan.skip_spaces (chunk b))).1)
  Left-skip_spaces b = Left-weaken (omega arith) (Left-split_to b _ (skip_spaces-le (chunk b)))

  -- The buffer behind the line ends it began with.
  pub chunk-skip_newlines :
      (b : ReadBuf M) → chunk (skip_newlines b).1 ≡ drop (line_ends (chunk b)).1 (chunk b)
  unfolding skip_newlines
  chunk-skip_newlines b =
      let w = (line_ends (chunk b)).1 in
      ground (
        arith,
        skip_newlines_lem (chunk b),
        line_ends-zero (chunk b),
        M.split_to_rest b.bytes w (line_ends-le (chunk b)),
      )

  pub Left-skip_newlines : (b : ReadBuf M) → Left 0 (chunk b) (chunk (skip_newlines b).1)
  Left-skip_newlines b = (
    take (line_ends (chunk b)).1 (chunk b),
    rw (chunk-skip_newlines b) (sym (take-append-drop _ (chunk b))),
    omega arith,
  )

-- Where the pieces of a header line end lies in the slice.
pub header_span-le :
    (bs : Bytes) (s : Span)
    → header_span bs ≡ some s
    → s.name_offset + s.name_len + 1 + s.value_offset + s.value_len ≤ length bs
unfolding header_span
header_span-le bs s e =
    let name_end = s.name_offset + (s.name_len + 1) in
    let value_start = name_end + s.value_offset in
    ground (
      arith,
      skip_spaces-le bs,
      length-drop s.name_offset bs,
      find_offset-lt is_colon (drop s.name_offset bs) s.name_len,
      skip_spaces-le (drop name_end bs),
      length-drop name_end bs,
      length-drop value_start bs,
      find_offset-lt is_line_end (drop value_start bs) s.value_len,
    )
