-- ===== src/Http/Request/Printed.antt =====
-- A printed request, and what each round of `Requester::parse` of crates/net/http/src/parse.rs does
-- with it.
use hala_rs.Base.{
  ℕ, ◌≡◌, ◌≢◌, refl, ap, ◌∙◌, true, false, Option, some, ok, List, [], ◌∷◌, ◌++◌, arith, length,
  drop, All, ◌==◌,
}
use hala_rs.Io.ReadBuf.{Bytes, BytesMut, ReadBuf, chunk, split_to}
use hala_rs.Http.Scan
use hala_rs.Http.Scan.{
  is_space, ends_token, Version, literal, match_version, found, http_09, http_10, http_11, http_2,
  http_3,
}
use hala_rs.Http.Scan.Newlines.{line_ends}
use hala_rs.Http.Scan.Laws.{find_offset-append}
use hala_rs.Http.Api.{ParseError, miss_method, invalid_method, miss_uri, invalid_uri, HttpCrate}
use hala_rs.Http.Header.{skip_newlines}
use hala_rs.Http.Header.Cuts.{split_to_front, split_to_rest, skip_spaces_rest}
use hala_rs.Http.Message.{Field, IsField, print_fields, parse_header-print}
use hala_rs.Http.Message.Block.{skip_newlines-block, skip_newlines-field}
use hala_rs.Http.Driver.{next_round, break_inner}
use hala_rs.Http.Request.{
  Requester, method, uri, version, headers, finished, next, take_token, skip_spaces, parse_method,
  parse_uri, parse_version, header_line, parse_headers, step, step_in,
}

-- A request with what the crate `http` makes of its parts.
pub record RequestText (H : HttpCrate) : Type 0 where
  pub method_text : Bytes
  pub uri_text : Bytes
  pub version : Version
  pub fields : List (Field H)
  pub method : H.Method
  pub uri : H.Uri

abbrev pub IsToken : Bytes → Type 0
IsToken w = (w ≢ []) × All (λ c. ends_token c ≡ false) w

pub record IsRequest {H : HttpCrate} (r : RequestText H) : Type 0 where
  pub method_token : IsToken r.method_text
  pub uri_token : IsToken r.uri_text
  pub method_accepted : H.method_from_bytes r.method_text ≡ some r.method
  pub uri_accepted : H.uri_from_maybe_shared r.uri_text ≡ some r.uri
  pub fields_ok : All IsField r.fields

abbrev pub print_request : {H : HttpCrate} → RequestText H → Bytes → Bytes
print_request r body =
    r.method_text
    ++ (b' ' ∷ (r.uri_text ++ (b' ' ∷ (literal r.version ++ print_fields r.fields body))))

abbrev pub add_fields : (H : HttpCrate) → H.RequestBuilder → List (Field H) → H.RequestBuilder
add_fields H b [] = b
add_fields H b (f ∷ fs) = add_fields H (H.with_header b f.parsed_name f.parsed_value) fs

-- The builder that the request stands for.
abbrev pub builder_of : {H : HttpCrate} → RequestText H → H.RequestBuilder
builder_of {H} r =
    add_fields H
      (H.with_version (H.with_uri (H.with_method H.request_builder r.method) r.uri) r.version)
      r.fields

token_first :
    (w : Bytes)
    → IsToken w
    → (c : ℕ) × (cs : Bytes) × (w ≡ c ∷ cs) × (is_space c ≡ false) × ((length w == 0) ≡ false)
token_first [] h = absurd (h.0 refl)
token_first (c ∷ cs) h = (c, cs, refl, ground (arith, h.1), ground arith)

match_version-literal : (v : Version) (xs : Bytes) → Scan.parse_version (literal v ++ xs) ≡ found v
unfolding Scan.parse_version match_version
match_version-literal http_09 xs = ground arith
match_version-literal http_10 xs = ground arith
match_version-literal http_11 xs = ground arith
match_version-literal http_2 xs = ground arith
match_version-literal http_3 xs = ground arith

length-literal : (v : Version) → length (literal v) ≡ 8
length-literal http_09 = refl
length-literal _ = refl

pub print_fields_begins :
    {H : HttpCrate} (fs : List (Field H)) (body : Bytes)
    → (rest : Bytes) × (print_fields fs body ≡ b'\r' ∷ rest)
print_fields_begins [] body = (_, refl)
print_fields_begins (f ∷ fs) body = (_, refl)

module _ {M : BytesMut} {H : HttpCrate} where
  take_token-print :
      {V : Type 0} (missing invalid : ParseError) (from_bytes : Bytes → Option V)
      (set : V → Requester H) (p : Requester H) (b : ReadBuf M) (sp w rest : Bytes) (c : ℕ) (v : V)
      → chunk b ≡ sp ++ (w ++ (c ∷ rest))
      → All (λ c. is_space c ≡ true) sp
      → IsToken w
      → ends_token c ≡ true
      → from_bytes w ≡ some v
      → (b' : ReadBuf M) × (take_token H missing invalid from_bytes set p b ≡ ok (true, set v, b'))
        × (chunk b' ≡ c ∷ rest)
  unfolding take_token
  take_token-print missing invalid from_bytes set p b sp w rest c v whole spaces t stop accepted =
      let (x, xs, starts, plain, nonzero) = token_first w t in
      let b1 = skip_spaces b in
      let c1 : chunk b1 ≡ w ++ (c ∷ rest) = rw starts (
        skip_spaces_rest b sp x (xs ++ (c ∷ rest))
          (whole ∙ ap (λ l. sp ++ (l ++ (c ∷ rest))) starts) spaces plain) in
      let len = ap Scan.parse_token c1 ∙ find_offset-append ends_token w c rest t.1 stop in
      let front = ap from_bytes (split_to_front b1 w (c ∷ rest) c1) ∙ accepted in
      (
        (split_to b1 (length w)).1,
        rw (len, nonzero, front, take_token),
        split_to_rest b1 w (c ∷ rest) c1,
      )

  -- A round in the state `method`, and so on below, on a printed request.
  pub method_round :
      (r : RequestText H) (β : H.RequestBuilder) (b : ReadBuf M) (rest : Bytes)
      → IsRequest r
      → chunk b ≡ r.method_text ++ (b' ' ∷ rest)
      → (b' : ReadBuf M) × (step H (record { state = method; builder = β }) b
          ≡ ok (next_round, record { state = uri; builder = H.with_method β r.method }, b'))
        × (chunk b' ≡ b' ' ∷ rest)
  unfolding step step_in parse_method next
  method_round r β b rest h whole =
      let (b', e, c) =
        take_token-print miss_method invalid_method H.method_from_bytes
          (λ m. record { state = uri; builder = H.with_method β m })
          (record { state = method; builder = β }) b [] r.method_text rest b' ' r.method whole tt
          h.method_token refl h.method_accepted in
      (b', rw e, c)

  pub uri_round :
      (r : RequestText H) (β : H.RequestBuilder) (b : ReadBuf M) (rest : Bytes)
      → IsRequest r
      → chunk b ≡ b' ' ∷ (r.uri_text ++ (b' ' ∷ rest))
      → (b' : ReadBuf M) × (step H (record { state = uri; builder = β }) b
          ≡ ok (next_round, record { state = version; builder = H.with_uri β r.uri }, b'))
        × (chunk b' ≡ b' ' ∷ rest)
  unfolding step step_in parse_uri next
  uri_round r β b rest h whole =
      let (b', e, c) =
        take_token-print miss_uri invalid_uri H.uri_from_maybe_shared
          (λ u. record { state = version; builder = H.with_uri β u })
          (record { state = uri; builder = β }) b (b' ' ∷ []) r.uri_text rest b' ' r.uri whole
          (refl, tt) h.uri_token refl h.uri_accepted in
      (b', rw e, c)

  pub version_round :
      (v : Version) (β : H.RequestBuilder) (b : ReadBuf M) (rest : Bytes)
      → chunk b ≡ b' ' ∷ (literal v ++ rest)
      → (b' : ReadBuf M) × (step H (record { state = version; builder = β }) b
          ≡ ok (next_round, record { state = headers; builder = H.with_version β v }, b'))
        × (chunk b' ≡ rest)
  unfolding step step_in parse_version next
  version_round v β b rest whole =
      let b1 = skip_spaces b in
      let c1 : chunk b1 ≡ literal v ++ rest =
        skip_spaces_rest b (b' ' ∷ []) b'H' _ whole (refl, tt) refl in
      let e = ap Scan.parse_version c1 ∙ match_version-literal v rest in
      (
        (split_to b1 8).1,
        rw (e, parse_version),
        rw (← length-literal v) (split_to_rest b1 (literal v) rest c1),
      )

  pub field_round :
      (f : Field H) (β : H.RequestBuilder) (b : ReadBuf M) (rest : Bytes)
      → IsField f
      → chunk b
        ≡ b'\r' ∷ b'\n' ∷ (f.name ++ (b':' ∷ b' ' ∷ ((f.value ++ f.padding) ++ (b'\r' ∷ rest))))
      → (b' : ReadBuf M) × (step H (record { state = headers; builder = β }) b
          ≡ ok (
            next_round,
            record { state = headers; builder = H.with_header β f.parsed_name f.parsed_value },
            b',
          ))
        × (chunk b' ≡ b'\r' ∷ rest)
  unfolding step step_in parse_headers header_line
  field_round f β b rest h whole =
      let (one_end, c1) = skip_newlines-field b f.name _ h.name_trimmed whole in
      let (b', e, c) = parse_header-print f (skip_newlines b).1 rest h c1 in
      (b', rw (one_end, e, parse_headers), c)

  pub block_round :
      (β : H.RequestBuilder) (b : ReadBuf M) (body : Bytes)
      → chunk b ≡ b'\r' ∷ b'\n' ∷ b'\r' ∷ b'\n' ∷ body
      → (b' : ReadBuf M) × (step H (record { state = headers; builder = β }) b
          ≡ ok (break_inner, record { state = finished; builder = β }, b'))
        × (chunk b' ≡ drop (line_ends body).1 body)
  unfolding step step_in parse_headers next
  block_round β b body whole =
      let (broke, c) = skip_newlines-block b body whole in
      ((skip_newlines b).1, rw (broke, parse_headers), c)
