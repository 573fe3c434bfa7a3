-- ===== src/Http/Response/Steps.antt =====
-- Each round of `Responser::parse` in crates/net/http/src/parse.rs leaves a suffix of the buffer,
-- and one that goes on takes a byte off it or reads an empty reason phrase.
use hala_rs.Base.{
  ℕ, ◌+◌, ◌≤◌, ◌<◌, ◌≡◌, ◌⊎◌, refl, ap, true, false, Option, none, some, Outcome, ok, err, ◌>>=◌,
  arith, inl, inr, Bool-cases, length, Option-cases, leb, take,
}
use hala_rs.Io.ReadBuf.{Bytes, BytesMut, ReadBuf, chunk, split_to}
use hala_rs.Http.Api.{ParseError, IsLocal, invalid_status_code, HttpCrate}
use hala_rs.Http.Scan
use hala_rs.Http.Scan.{
  SkipNewLine, none_found, one, break, VersionScan, found, bad, is_line_end, Version,
}
use hala_rs.Http.Scan.Laws.{find_offset-lt, version_cases}
use hala_rs.Http.Header.{skip_newlines, parse_header}
use hala_rs.Http.Suffix.{Left, Left-refl, Left-trans, Left-weaken, length-Left}
use hala_rs.Http.Header.Laws.{Left-split_to, Left-skip_spaces, Left-skip_newlines}
use hala_rs.Http.Header.Line.{Leaves, taken, parse_header-Leaves}
use hala_rs.Http.Driver.{Round}
use hala_rs.Http.Response.{
  Responser, ParseState, Parsing, skip_spaces, parse_code, parse_version, parse_status_code,
  parse_reason, header_line, parse_headers, after_newlines, flow, step_in, version, status_code,
  reason, headers, finished, next, step,
}

-- A round in the state `reason` may take nothing, and leads on to another state.
abbrev rank_in : ParseState → ℕ
rank_in reason = 1
rank_in _ = 0

abbrev pub rank : {H : HttpCrate} → Responser H → ℕ
rank p = rank_in p.state

rank_in-le : (s : ParseState) → rank_in s ≤ 1
rank_in-le version = omega arith
rank_in-le _ = omega arith

-- `parse_code` waits, fails, or has a code in the first three bytes.
code_cases :
    (H : HttpCrate) (bs : Bytes)
    → (parse_code H bs ≡ err invalid_status_code)
      ⊎ ((parse_code H bs ≡ ok none)
          ⊎ ((code : H.StatusCode) × (parse_code H bs ≡ ok (some code)) × (3 ≤ length bs)))
unfolding parse_code
code_cases H bs = elim (Bool-cases (leb 3 (length bs))) [
  | inl e ↦ elim (Option-cases (H.status_from_bytes (take 3 bs))) [
    | inl f ↦ inl (rw (e, f, parse_code))
    | inr (v, f) ↦ inr (inr (v, rw (e, f, parse_code), ground arith))
  ]
  | inr e ↦ inr (inl (rw (e, parse_code)))
]

module _ {M : BytesMut} {H : HttpCrate} where
  -- What a function of a state leaves, if it starts at the rank `k`.
  abbrev Keeps : ℕ → ReadBuf M → Parsing M H → Type 0
  Keeps k b (ok (true, p, b')) =
      Left 0 (chunk b) (chunk b') × (length (chunk b') + rank p < length (chunk b) + k)
  Keeps k b (ok (false, p, b')) = Left 0 (chunk b) (chunk b')
  Keeps k b (err e) = IsLocal e

  -- Two bytes are enough for any state to follow.
  Keeps-two :
      (k : ℕ) (b b' : ReadBuf M) (p : Responser H)
      → Left 2 (chunk b) (chunk b')
      → Keeps k b (ok (true, p, b'))
  Keeps-two k b b' p l = (
    Left-weaken (omega arith) l,
    omega (arith, length-Left (chunk b) (chunk b') l, rank_in-le p.state),
  )

  parse_version-Keeps :
      (k : ℕ) (p : Responser H) (b0 : ReadBuf M) → Keeps k b0 (parse_version H p b0)
  unfolding parse_version
  parse_version-Keeps k p b0 =
      let b = skip_spaces H b0 in
      elim (version_cases (chunk b)) [
        | inl e ↦ rw (e, parse_version) tt
        | inr (inl e) ↦ rw (e, parse_version) (Left-skip_spaces b0)
        | inr (inr (v, e, h)) ↦
            rw (e, parse_version)
              (Keeps-two k b0 (split_to b 8).1
                (record p { state = next p.state; builder = H.response_version p.builder v })
                (Left-weaken (omega arith)
                  (Left-trans (Left-skip_spaces b0) (Left-split_to b 8 h))))
      ]

  parse_status_code-Keeps :
      (k : ℕ) (p : Responser H) (b0 : ReadBuf M) → Keeps k b0 (parse_status_code H p b0)
  unfolding parse_status_code
  parse_status_code-Keeps k p b0 =
      let b = skip_spaces H b0 in
      elim (code_cases H (chunk b)) [
        | inl e ↦ rw (e, parse_status_code) tt
        | inr (inl e) ↦ rw (e, parse_status_code) (Left-skip_spaces b0)
        | inr (inr (code, e, h)) ↦
            rw (e, parse_status_code)
              (Keeps-two k b0 (split_to b 3).1
                (record p { state = next p.state; builder = H.response_status p.builder code })
                (Left-weaken (omega arith)
                  (Left-trans (Left-skip_spaces b0) (Left-split_to b 3 h))))
      ]

  parse_reason-Keeps :
      (p : Responser H) (b0 : ReadBuf M) → p.state ≡ reason → Keeps 1 b0 (parse_reason H p b0)
  unfolding parse_reason next
  parse_reason-Keeps p b0 at_reason =
      let b = skip_spaces H b0 in
      elim (Option-cases (Scan.parse_reason (chunk b))) [
        | inl e ↦ rw (e, parse_reason) (Left-skip_spaces b0)
        | inr (len, e) ↦
            let l : Left 0 (chunk b0) (chunk (split_to b len).1) = Left-weaken (omega arith) (
              Left-trans (Left-skip_spaces b0) (
                Left-split_to b len (omega (arith, find_offset-lt is_line_end (chunk b) len e)))) in
            rw (e, parse_reason)
              (l, rw at_reason (omega (arith, length-Left (chunk b0) (chunk (split_to b len).1) l)))
      ]

  header_line-Keeps : (p : Responser H) (b : ReadBuf M) → Keeps (rank p) b (header_line H p b)
  unfolding header_line
  header_line-Keeps p b = go (parse_header H b) (parse_header-Leaves H b)
    where
      go :
          (r : Outcome ParseError (Option (H.HeaderName × H.HeaderValue) × ReadBuf M))
          → Leaves taken b r
          → Keeps (rank p) b (
              r >>= λ x. elim x.0 [
                | none ↦ ok (false, p, x.1)
                | some (name, value) ↦
                    ok (true, record p { builder = H.response_header p.builder name value }, x.1)
              ])
      go (err e) l = l
      go (ok (none, b')) l = l
      go (ok (some h, b')) l =
          (Left-weaken (omega arith) l, omega (arith, length-Left (chunk b) (chunk b') l))

  after_newlines-Keeps :
      (r : SkipNewLine) (p : Responser H) (b : ReadBuf M)
      → Keeps (rank p) b (after_newlines H r p b)
  after_newlines-Keeps (break n) p b = Left-refl (chunk b)
  after_newlines-Keeps SkipNewLine.incomplete p b = Left-refl (chunk b)
  after_newlines-Keeps (one n) p b = header_line-Keeps p b
  after_newlines-Keeps none_found p b = header_line-Keeps p b

  Keeps-trans :
      (k : ℕ) (b c : ReadBuf M) (r : Parsing M H)
      → Left 0 (chunk b) (chunk c)
      → Keeps k c r
      → Keeps k b r
  Keeps-trans k b c (ok (true, p, b')) l h = (
    Left-weaken (omega arith) (Left-trans l h.0),
    omega (arith, h.1, length-Left (chunk b) (chunk c) l),
  )
  Keeps-trans k b c (ok (false, p, b')) l h = Left-weaken (omega arith) (Left-trans l h)
  Keeps-trans k b c (err e) l h = h

  parse_headers-Keeps : (p : Responser H) (b : ReadBuf M) → Keeps (rank p) b (parse_headers H p b)
  unfolding parse_headers
  parse_headers-Keeps p b =
      Keeps-trans (rank p) b (skip_newlines b).1 _ (Left-skip_newlines b)
        (after_newlines-Keeps _ p _)

  flow-Round :
      (q : Responser H) (b : ReadBuf M) (r : Parsing M H)
      → Keeps (rank q) b r
      → Round rank q b (flow H r)
  flow-Round q b (ok (true, p, b')) k = k
  flow-Round q b (ok (false, p, b')) k = k
  flow-Round q b (err e) k = k

  step_in-Round :
      (s : ParseState) (p : Responser H) (b : ReadBuf M)
      → p.state ≡ s
      → Round rank p b (step_in H s p b)
  unfolding step_in
  step_in-Round version p b e = flow-Round p b _ (parse_version-Keeps _ p b)
  step_in-Round status_code p b e = flow-Round p b _ (parse_status_code-Keeps _ p b)
  step_in-Round reason p b e =
      flow-Round p b (parse_reason H p b) (rw (ap rank_in e) (parse_reason-Keeps p b e))
  step_in-Round headers p b e = flow-Round p b _ (parse_headers-Keeps p b)
  step_in-Round finished p b e = Left-refl (chunk b)

  pub step-Round : (p : Responser H) (b : ReadBuf M) → Round rank p b (step H p b)
  unfolding step
  step-Round p b = step_in-Round p.state p b refl
