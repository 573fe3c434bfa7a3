-- ===== src/Http/Message/Block.antt =====
-- Where the skip of line ends in crates/net/http/src/parse.rs stands in a printed header block.
use hala_rs.Base.{ℕ, ◌+◌, ◌≡◌, ap, ◌∙◌, ◌∷◌, ◌++◌, arith, drop}
use hala_rs.Io.ReadBuf.{Bytes, BytesMut, ReadBuf, chunk}
use hala_rs.Http.Scan
use hala_rs.Http.Scan.{one, break}
use hala_rs.Http.Scan.Newlines.{line_ends, line_ends-plain, line_ends-crlf, skip_newlines_lem}
use hala_rs.Http.Header.{skip_newlines}
use hala_rs.Http.Header.Laws.{chunk-skip_newlines}
use hala_rs.Http.Message.{IsTrimmed}

-- Two line ends and those that the body begins with.
pub line_ends-block :
    (body : Bytes)
    → ((line_ends (b'\r' ∷ b'\n' ∷ b'\r' ∷ b'\n' ∷ body)).0 ≡ (line_ends body).0 + 2)
      × ((line_ends (b'\r' ∷ b'\n' ∷ b'\r' ∷ b'\n' ∷ body)).1 ≡ (line_ends body).1 + 4)
line_ends-block body = omega (arith, line_ends-crlf body, line_ends-crlf (b'\r' ∷ b'\n' ∷ body))

drop_four : (w : ℕ) (a b c d : ℕ) (r : Bytes) → drop (w + 4) (a ∷ b ∷ c ∷ d ∷ r) ≡ drop w r
drop_four w a b c d r = ground arith

module _ {M : BytesMut} (b : ReadBuf M) where
  -- At the end of the block: a break, behind which lies the body without its leading line ends.
  pub skip_newlines-block :
      (body : Bytes)
      → chunk b ≡ b'\r' ∷ b'\n' ∷ b'\r' ∷ b'\n' ∷ body
      → ((skip_newlines b).0 ≡ break ((line_ends body).1 + 4))
        × (chunk (skip_newlines b).1 ≡ drop (line_ends body).1 body)
  unfolding skip_newlines
  skip_newlines-block body e = (
    ap Scan.skip_newlines e ∙ skip_newlines_lem _ ∙ ground (arith, line_ends-block body),
    chunk-skip_newlines b
        ∙ ap (λ l. drop (line_ends l).1 l) e
        ∙ rw ((line_ends-block body).1) (drop_four (line_ends body).1 _ _ _ _ body),
  )

  -- In front of a field: one line end.
  pub skip_newlines-field :
      (name rest : Bytes)
      → IsTrimmed name
      → chunk b ≡ b'\r' ∷ b'\n' ∷ (name ++ rest)
      → ((skip_newlines b).0 ≡ one 2) × (chunk (skip_newlines b).1 ≡ name ++ rest)
  unfolding skip_newlines
  skip_newlines-field name rest t e = (
    ap Scan.skip_newlines e ∙ skip_newlines_lem _ ∙ ground (arith, ends),
    chunk-skip_newlines b ∙ ap (λ l. drop (line_ends l).1 l) e ∙ rw (ends.1),
  )
    where
      plain : ((line_ends (name ++ rest)).0 ≡ 0) × ((line_ends (name ++ rest)).1 ≡ 0)
      plain = rw (t.begins) (
          line_ends-plain t.first (t.behind ++ rest) (ground (arith, t.first_plain.1))
            (ground (arith, t.first_plain.1)))

      ends :
          ((line_ends (b'\r' ∷ b'\n' ∷ (name ++ rest))).0 ≡ 1)
          × ((line_ends (b'\r' ∷ b'\n' ∷ (name ++ rest))).1 ≡ 2)
      ends = omega (arith, plain, line_ends-crlf (name ++ rest))
