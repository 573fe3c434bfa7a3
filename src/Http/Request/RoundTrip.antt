-- ===== src/Http/Request/RoundTrip.antt =====
-- `Requester::parse` of crates/net/http/src/parse.rs reads back a printed request.
use hala_rs.Base.{
  ◌≤◌, ◌≡◌, ◌≢◌, refl, sym, ap, ◌∙◌, some, ok, List, [], ◌∷◌, ◌++◌, arith, length, length-append,
  drop, All,
}
use hala_rs.Io.ReadBuf.{Bytes, BytesMut, ReadBuf, chunk, chunk_mut, with_capacity, filled}
use hala_rs.Io.Stream.{Stream, Delivery}
use hala_rs.Http.Scan.{literal}
use hala_rs.Http.Scan.Newlines.{line_ends}
use hala_rs.Http.Api.{Config, HttpCrate}
use hala_rs.Http.Message.{Field, IsField, print_fields}
use hala_rs.Http.Driver.{next_round}
use hala_rs.Http.Driver.Total.{progress}
use hala_rs.Http.Driver.Rounds.{Rounds, here, more, run-Rounds}
use hala_rs.Http.Request.{Requester, headers, step, new}
use hala_rs.Http.Request.Parse.{machine, parse}
use hala_rs.Http.Request.Printed.{
  RequestText, IsRequest, print_request, add_fields, builder_of, print_fields_begins, method_round,
  uri_round, version_round, field_round, block_round,
}

module _ {M : BytesMut} {H : HttpCrate} where
  -- Every round of a `Requester` that goes on takes a byte, so the buffer was not empty.
  pub round :
      {q p p' : Requester H} {c b b' : ReadBuf M}
      → step H p b ≡ ok (next_round, p', b')
      → Rounds (machine M H) q c p' b'
      → Rounds (machine M H) q c p b
  round {p = p} {p' = p'} {b = b} {b' = b'} e r =
      let shorter = progress (machine M H) p p' b b' e in more (λ z. absurd (omega arith)) e r

  fields-Rounds :
      (fs : List (Field H)) (β : H.RequestBuilder) (b : ReadBuf M) (body : Bytes)
      → All IsField fs
      → chunk b ≡ print_fields fs body
      → (c : ReadBuf M) × Rounds
          (machine M H)
          (record { state = headers; builder = add_fields H β fs })
          c
          (record { state = headers; builder = β })
          b
        × (chunk c ≡ print_fields {H = H} [] body)
  fields-Rounds [] β b body h whole = (b, here, whole)
  fields-Rounds (f ∷ fs) β b body h whole =
      let (rest, begins) = print_fields_begins fs body in
      let (b', e, c) = field_round f β b rest h.0 (
        whole
        ∙ ap (λ l. b'\r' ∷ b'\n' ∷ (f.name ++ (b':' ∷ b' ' ∷ ((f.value ++ f.padding) ++ l))))
            begins) in
      let (d, rounds, last) =
        fields-Rounds fs (H.with_header β f.parsed_name f.parsed_value) b' body h.1
          (c ∙ sym begins) in
      (d, round e rounds, last)

  request-Rounds :
      (r : RequestText H) (b : ReadBuf M) (body : Bytes)
      → IsRequest r
      → chunk b ≡ print_request r body
      → (c : ReadBuf M) × Rounds
          (machine M H)
          (record { state = headers; builder = builder_of r })
          c
          (new H)
          b
        × (chunk c ≡ print_fields {H = H} [] body)
  request-Rounds r b body h whole =
      let (b1, e1, c1) = method_round r H.request_builder b _ h whole in
      let (b2, e2, c2) = uri_round r (H.with_method H.request_builder r.method) b1 _ h c1 in
      let (b3, e3, c3) =
        version_round r.version (H.with_uri (H.with_method H.request_builder r.method) r.uri) b2 _
          c2 in
      let (c, rounds, last) = fields-Rounds r.fields _ b3 body h.fields_ok c3 in
      (c, round e1 (round e2 (round e3 rounds)), last)

print_request_nonempty :
    {H : HttpCrate} (r : RequestText H) (body : Bytes) → length (print_request r body) ≢ 0
print_request_nonempty r body e = absurd (
    omega (
      arith,
      e,
      length-append r.method_text
          (b' ' ∷ (r.uri_text ++ (b' ' ∷ (literal r.version ++ print_fields r.fields body)))),
    ))

-- Let a request with a method and a target that are tokens, well formed header fields and a body
-- arrive in one read, for which the parse buffer has room, and let the crate `http` accept its
-- parts. Then `parse` returns the request built from just these parts in their order (header values
-- without the spaces behind them), and caches the body less the line ends that it begins with.
pub parse-print :
    (M : BytesMut) (H : HttpCrate) (config : Config) (r : RequestText H) (body : Bytes) (s : Stream)
    (request : H.Request)
    → IsRequest r
    → length (print_request r body)
      ≤ (chunk_mut (with_capacity {M = M} config.parsing_headers_max_buf)).1
    → H.request_body (builder_of r) ≡ some request
    → parse M H config (Delivery.chunk (print_request r body) ∷ s)
      ≡ some (ok (request, record { cached = drop (line_ends body).1 body; stream = s }))
unfolding parse
parse-print M H config r body s request h fits built =
    let b0 = with_capacity {M = M} config.parsing_headers_max_buf in
    let text = print_request r body in
    let whole : chunk (filled (chunk_mut b0).0 text) ≡ text =
      M.as_ref-advance_mut b0.bytes text fits
      ∙ ap (λ l. l ++ text) (M.as_ref-with_capacity config.parsing_headers_max_buf) in
    let (c, rounds, last) = request-Rounds r (filled (chunk_mut b0).0 text) body h whole in
    let (c', ended, cached) = block_round (builder_of r) c body last in
    let ran =
      run-Rounds (machine M H) config (new H) b0 text s refl (print_request_nonempty r body) fits
        rounds ended (λ e. absurd (omega (arith, e, ap length last))) refl in
    rw (ran, built, cached)
