-- ===== src/Http/Request/Steps.antt =====
-- Each round of `Requester::parse` in crates/net/http/src/parse.rs leaves a suffix of the buffer,
-- and one that goes on takes at least a byte off it.
use hala_rs.Base.{
  true, false, Option, none, some, Outcome, ok, err, ◌>>=◌, arith, inl, inr, Bool-cases, ◌==◌,
  if◌then◌else◌, Option-cases,
}
use hala_rs.Io.ReadBuf.{Bytes, BytesMut, ReadBuf, chunk, split_to}
use hala_rs.Http.Api.{
  ParseError, IsLocal, miss_method, invalid_method, miss_uri, invalid_uri, HttpCrate,
}
use hala_rs.Http.Scan
use hala_rs.Http.Scan.{
  SkipNewLine, none_found, one, break, VersionScan, found, bad, ends_token, Version, match_version,
}
use hala_rs.Http.Scan.Laws.{find_offset-lt, version_cases}
use hala_rs.Http.Header.{skip_newlines, parse_header}
use hala_rs.Http.Suffix.{Left, Left-refl, Left-trans, Left-weaken, length-Left}
use hala_rs.Http.Header.Laws.{Left-split_to, Left-skip_spaces, Left-skip_newlines}
use hala_rs.Http.Header.Line.{Leaves, taken, parse_header-Leaves}
use hala_rs.Http.Driver.{Round}
use hala_rs.Http.Request.{
  Requester, ParseState, Parsing, skip_spaces, take_token, parse_method, parse_uri, parse_version,
  header_line, parse_headers, after_newlines, flow, step_in, method, uri, version, headers,
  finished, next, step,
}

module _ {M : BytesMut} {H : HttpCrate} where
  -- A result `true` has taken a byte.
  abbrev pub Keeps : ReadBuf M → Parsing M H → Type 0
  Keeps b (ok (go, p, b')) = Left (if go then 1 else 0) (chunk b) (chunk b')
  Keeps b (err e) = IsLocal e

  Keeps-trans :
      (b c : ReadBuf M) (r : Parsing M H) → Left 0 (chunk b) (chunk c) → Keeps c r → Keeps b r
  Keeps-trans b c (ok (go, p, b')) l k = Left-weaken (omega arith) (Left-trans l k)
  Keeps-trans b c (err e) l k = k

  take_token-Keeps :
      {V : Type 0} (missing invalid : ParseError) (from_bytes : Bytes → Option V)
      (set : V → Requester H)
      → IsLocal missing
      → IsLocal invalid
      → (p : Requester H) (b0 : ReadBuf M)
      → Keeps b0 (take_token H missing invalid from_bytes set p b0)
  unfolding take_token
  take_token-Keeps missing invalid from_bytes set lm li p b0 =
      let b = skip_spaces b0 in
      elim (Option-cases (Scan.parse_token (chunk b))) [
        | inl e ↦ rw (e, take_token) (Left-skip_spaces b0)
        | inr (len, e) ↦ elim (Bool-cases (len == 0)) [
          | inl z ↦ rw (e, z, take_token) lm
          | inr nz ↦ elim (Option-cases (from_bytes (M.as_ref (split_to b len).0))) [
            | inl f ↦ rw (e, nz, f, take_token) li
            | inr (v, f) ↦
                rw (e, nz, f, take_token)
                  (Keeps-trans b0 b (ok (true, set v, (split_to b len).1)) (Left-skip_spaces b0) (
                    Left-weaken (ground arith) (
                      Left-split_to b len
                        (omega (arith, find_offset-lt ends_token (chunk b) len e)))))
          ]
        ]
      ]

  parse_method-Keeps : (p : Requester H) (b : ReadBuf M) → Keeps b (parse_method H p b)
  unfolding parse_method
  parse_method-Keeps p b =
      take_token-Keeps miss_method invalid_method H.method_from_bytes
        (λ m. record { state = next p.state; builder = H.with_method p.builder m }) tt tt p b

  parse_uri-Keeps : (p : Requester H) (b : ReadBuf M) → Keeps b (parse_uri H p b)
  unfolding parse_uri
  parse_uri-Keeps p b =
      take_token-Keeps miss_uri invalid_uri H.uri_from_maybe_shared
        (λ u. record { state = next p.state; builder = H.with_uri p.builder u }) tt tt p b

  parse_version-Keeps : (p : Requester H) (b0 : ReadBuf M) → Keeps b0 (parse_version H p b0)
  unfolding parse_version
  parse_version-Keeps p b0 =
      let b = skip_spaces b0 in
      elim (version_cases (chunk b)) [
        | inl e ↦ rw (e, parse_version) tt
        | inr (inl e) ↦ rw (e, parse_version) (Left-skip_spaces b0)
        | inr (inr (v, e, h)) ↦
            rw (e, parse_version)
              (Left-weaken (omega arith) (Left-trans (Left-skip_spaces b0) (Left-split_to b 8 h)))
      ]

  header_line-Keeps : (p : Requester H) (b : ReadBuf M) → Keeps b (header_line H p b)
  unfolding header_line
  header_line-Keeps p b = go (parse_header H b) (parse_header-Leaves H b)
    where
      go :
          (r : Outcome ParseError (Option (H.HeaderName × H.HeaderValue) × ReadBuf M))
          → Leaves taken b r
          → Keeps b (
              r >>= λ x. elim x.0 [
                | none ↦ ok (false, p, x.1)
                | some (name, value) ↦
                    ok (true, record p { builder = H.with_header p.builder name value }, x.1)
              ])
      go (err e) l = l
      go (ok (none, b')) l = l
      go (ok (some h, b')) l = l

  after_newlines-Keeps :
      (r : SkipNewLine) (p : Requester H) (b : ReadBuf M) → Keeps b (after_newlines H r p b)
  after_newlines-Keeps (break n) p b = Left-refl (chunk b)
  after_newlines-Keeps SkipNewLine.incomplete p b = Left-refl (chunk b)
  after_newlines-Keeps (one n) p b = header_line-Keeps p b
  after_newlines-Keeps none_found p b = header_line-Keeps p b

  parse_headers-Keeps : (p : Requester H) (b : ReadBuf M) → Keeps b (parse_headers H p b)
  unfolding parse_headers
  parse_headers-Keeps p b =
      Keeps-trans b (skip_newlines b).1 _ (Left-skip_newlines b) (after_newlines-Keeps _ p _)

  flow-Round :
      (p : Requester H) (b : ReadBuf M) (r : Parsing M H)
      → Keeps b r
      → Round (λ _. 0) p b (flow H r)
  flow-Round q b (ok (true, p, b')) k =
      (Left-weaken (omega arith) k, omega (arith, length-Left (chunk b) (chunk b') k))
  flow-Round q b (ok (false, p, b')) k = k
  flow-Round q b (err e) k = k

  step_in-Round :
      (s : ParseState) (p : Requester H) (b : ReadBuf M) → Round (λ _. 0) p b (step_in H s p b)
  unfolding step_in
  step_in-Round method p b = flow-Round p b _ (parse_method-Keeps p b)
  step_in-Round uri p b = flow-Round p b _ (parse_uri-Keeps p b)
  step_in-Round version p b = flow-Round p b _ (parse_version-Keeps p b)
  step_in-Round headers p b = flow-Round p b _ (parse_headers-Keeps p b)
  step_in-Round finished p b = Left-refl (chunk b)

  pub step-Round : (p : Requester H) (b : ReadBuf M) → Round (λ _. 0) p b (step H p b)
  unfolding step
  step-Round p b = step_in-Round p.state p b
