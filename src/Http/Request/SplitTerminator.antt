-- ===== src/Http/Request/SplitTerminator.antt =====
-- `Requester::parse` of crates/net/http/src/parse.rs misses the end of a header block whose two
-- line ends arrive in two reads.
use hala_rs.Base.{
  ℕ, zero, suc, ◌+◌, ◌≤◌, ◌<◌, ◌≡◌, ◌≢◌, refl, ap, ◌∙◌, some, ok, err, [], ◌∷◌, ◌++◌, arith, length,
  length-append, ◌==◌, false,
}
use hala_rs.Io.ReadBuf.{Bytes, BytesMut, ReadBuf, chunk, chunk_mut, with_capacity, filled}
use hala_rs.Io.Stream.{Stream, Delivery, read, weight}
use hala_rs.Http.Scan
use hala_rs.Http.Scan.{literal, one}
use hala_rs.Http.Scan.Newlines.{line_ends, skip_newlines_lem}
use hala_rs.Http.Api.{eof, Config, HttpCrate}
use hala_rs.Http.Header.{header_span, skip_newlines, parse_header}
use hala_rs.Http.Header.Laws.{chunk-skip_newlines}
use hala_rs.Http.Driver.{break_inner, consume, out_loop, run}
use hala_rs.Http.Driver.Rounds.{
  Rounds, here, inner_loop-Rounds, inner_loop-Rounds_empty, out_loop_next,
}
use hala_rs.Http.Request.{headers, step, step_in, parse_headers, header_line, new}
use hala_rs.Http.Request.Parse.{machine, parse}
use hala_rs.Http.Request.Printed.{RequestText, IsRequest, method_round, uri_round, version_round}
use hala_rs.Http.Request.RoundTrip.{round}

abbrev pub crlf : Bytes
crlf = b'\r' ∷ b'\n' ∷ []

-- The request line without its line end.
abbrev pub print_line : {H : HttpCrate} → RequestText H → Bytes
print_line r = r.method_text ++ (b' ' ∷ (r.uri_text ++ (b' ' ∷ (literal r.version ++ []))))

-- `n` reads of one line end each, and then the end of the stream.
abbrev pub line_end_reads : ℕ → Stream
line_end_reads zero = []
line_end_reads (suc n) = Delivery.chunk crlf ∷ line_end_reads n

-- Every slice that the read buffer offers has room for `n` bytes.
abbrev pub Roomy : BytesMut → ℕ → Type 0
Roomy M n = (b : ReadBuf M) → n ≤ (chunk_mut b).1

module _ {M : BytesMut} {H : HttpCrate} where
  -- A line end alone is dropped, and the parser waits for a header line.
  line_end_round :
      (β : H.RequestBuilder) (b : ReadBuf M)
      → chunk b ≡ crlf
      → (b' : ReadBuf M) × (step H (record { state = headers; builder = β }) b
          ≡ ok (break_inner, record { state = headers; builder = β }, b'))
        × (chunk b' ≡ [])
  unfolding step step_in parse_headers header_line parse_header header_span Scan.skip_spaces
      Scan.find_offset skip_newlines line_ends
  line_end_round β b whole =
      let found : (skip_newlines b).0 ≡ one 2 =
        ap Scan.skip_newlines whole ∙ skip_newlines_lem crlf in
      let left : chunk (skip_newlines b).1 ≡ [] = chunk-skip_newlines b ∙ rw whole in
      ((skip_newlines b).1, rw (found, left, parse_headers, header_line, parse_header), left)

  line_end_reads_lem :
      (n fuel : ℕ) (config : Config) (β : H.RequestBuilder) (b : ReadBuf M)
      → Roomy M 2
      → chunk b ≡ []
      → weight (line_end_reads n) < fuel
      → out_loop
          (machine M H)
          fuel
          config
          (record { state = headers; builder = β })
          b
          (line_end_reads n)
        ≡ some (err eof)
  unfolding consume weight
  line_end_reads_lem n zero config β b roomy whole h = elim h [ ]
  line_end_reads_lem zero (suc fuel) config β b roomy whole h =
      let room : ((chunk_mut b).1 == 0) ≡ false = ground (arith, roomy b) in
      unfold out_loop read in rw (room, out_loop, read)
  line_end_reads_lem (suc n) (suc fuel) config β b roomy whole h =
      let buf = filled (chunk_mut b).0 crlf in
      let filled_crlf : chunk buf ≡ crlf =
        M.as_ref-advance_mut b.bytes crlf (roomy b) ∙ ap (λ l. l ++ crlf) whole in
      let (b', e, left) = line_end_round β buf filled_crlf in
      let ended =
        inner_loop-Rounds (machine M H) here e
          (λ z. absurd (omega (arith, z, ap length filled_crlf))) (suc (length (chunk buf) + 0))
          (omega arith) in
      out_loop_next (machine M H) fuel config _ _ b b' crlf (line_end_reads n) refl
        (λ z. absurd (omega (arith, z))) (roomy b) ended refl
      ∙ line_end_reads_lem n fuel config β b' roomy left (omega arith)

  line-Rounds :
      (r : RequestText H) (b : ReadBuf M)
      → IsRequest r
      → chunk b ≡ print_line r
      → (β : H.RequestBuilder) × (c : ReadBuf M) × Rounds
          (machine M H)
          (record { state = headers; builder = β })
          c
          (new H)
          b
        × (chunk c ≡ [])
  line-Rounds r b h whole =
      let (b1, e1, c1) = method_round r H.request_builder b _ h whole in
      let (b2, e2, c2) = uri_round r (H.with_method H.request_builder r.method) b1 _ h c1 in
      let (b3, e3, c3) =
        version_round r.version (H.with_uri (H.with_method H.request_builder r.method) r.uri) b2 _
          c2 in
      (_, b3, round e1 (round e2 (round e3 here)), c3)

print_line_nonempty : {H : HttpCrate} (r : RequestText H) → length (print_line r) ≢ 0
print_line_nonempty r e = absurd (
    omega (
      arith,
      e,
      length-append r.method_text (b' ' ∷ (r.uri_text ++ (b' ' ∷ (literal r.version ++ [])))),
    ))

-- Let the line of a request arrive in one read, and behind it any number of reads of one line end
-- each, where each slice of the parse buffer has room for what is read. Then `parse` never finds the
-- end of the header block, though two line ends are one, and fails at the end of the stream.
pub split_terminator_lost :
    (M : BytesMut) (H : HttpCrate) (config : Config) (r : RequestText H) (n : ℕ)
    → IsRequest r
    → Roomy M (length (print_line r) + 2)
    → parse M H config (Delivery.chunk (print_line r) ∷ line_end_reads n) ≡ some (err eof)
unfolding parse run consume weight
split_terminator_lost M H config r n h roomy =
    let b0 = with_capacity {M = M} config.parsing_headers_max_buf in
    let text = print_line r in
    let fits : length text ≤ (chunk_mut b0).1 = omega (arith, roomy b0) in
    let whole : chunk (filled (chunk_mut b0).0 text) ≡ text =
      M.as_ref-advance_mut b0.bytes text fits
      ∙ ap (λ l. l ++ text) (M.as_ref-with_capacity config.parsing_headers_max_buf) in
    let (β, c, rounds, empty) = line-Rounds r (filled (chunk_mut b0).0 text) h whole in
    let ended =
      inner_loop-Rounds_empty (machine M H) rounds (ap length empty)
        (suc (length (chunk (filled (chunk_mut b0).0 text)) + 0)) (omega arith) in
    let first =
      out_loop_next (machine M H) (weight (Delivery.chunk text ∷ line_end_reads n)) config (new H) _
        b0 c text (line_end_reads n) refl (print_line_nonempty r) fits ended refl in
    let rest =
      line_end_reads_lem {H = H} n (weight (Delivery.chunk text ∷ line_end_reads n)) config β c
        (λ b. omega (arith, roomy b)) empty (omega arith) in
    rw (first, rest)
