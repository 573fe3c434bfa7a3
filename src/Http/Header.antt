-- ===== src/Http/Header.antt =====
-- crates/net/http/src/parse.rs, the functions that both parsers run on the read buffer: the skip of
-- line ends, the trim of trailing spaces, and one header line.
pub mod Laws
pub mod Line
pub mod Cuts
use hala_rs.Base.{
  ℕ, ◌+◌, ◌-◌, Option, none, some, Outcome, ok, err, ok_or, ◌>>=◌, ltb, if◌then◌else◌, length, drop,
}
use hala_rs.Io.ReadBuf.{Bytes, BytesMut, ReadBuf, chunk, split_to}
use hala_rs.Http.Api.{ParseError, invalid_header_name, invalid_header_value, HttpCrate}
use hala_rs.Http.Scan
use hala_rs.Http.Scan.{SkipNewLine, none_found, one, break}

-- Where a header line has its name and its value, from the start of the buffer: the spaces in front
-- of the name, the name, the spaces behind the colon, the value.
pub record Span : Type 0 where
  pub name_offset : ℕ
  pub name_len : ℕ
  pub value_offset : ℕ
  pub value_len : ℕ

-- The first half of `parse_header`, on `read_buf.chunk()`.
unfoldable pub header_span : Bytes → Option Span
header_span chunk =
    let name_offset = Scan.skip_spaces chunk in
    elim (Scan.parse_header_name (drop name_offset chunk)) [
      | none ↦ none
      | some name_len ↦
          let offset = name_offset + (name_len + 1) in
          let value_offset = Scan.skip_spaces (drop offset chunk) in
          elim (Scan.parse_header_value (drop (offset + value_offset) chunk)) [
            | none ↦ none
            | some value_len ↦ some (record {
              name_offset = name_offset;
              name_len = name_len;
              value_offset = value_offset;
              value_len = value_len;
            })
          ]
    ]

module _ {M : BytesMut} where
  -- `skip_newlines`
  unfoldable pub skip_newlines : ReadBuf M → SkipNewLine × ReadBuf M
  skip_newlines b =
      let r = Scan.skip_newlines (chunk b) in
      (r, elim r [ one len ↦ (split_to b len).1 | break len ↦ (split_to b len).1 | _ ↦ b ])

-- `trim_suffix_spaces`: a buffer of nothing but spaces stays as it is.
unfoldable pub trim_suffix_spaces : (M : BytesMut) → M.Buf → M.Buf
trim_suffix_spaces M buf = elim (Scan.suffix_spaces (M.as_ref buf)) [
  | none ↦ buf
  | some offset ↦ if ltb 0 offset then (M.split_off buf (length (M.as_ref buf) - offset)).0 else buf
]

module _ {M : BytesMut} (H : HttpCrate) where
  -- The second half of `parse_header`, which takes the line off the buffer.
  unfoldable pub take_header :
      ReadBuf M → Span → Outcome ParseError ((H.HeaderName × H.HeaderValue) × ReadBuf M)
  take_header b0 s = do
    let b1 = (split_to b0 s.name_offset).1
    let (raw_name, b2) = split_to b1 s.name_len
    name ←
        ok_or (H.header_name_from_bytes (M.as_ref (trim_suffix_spaces M raw_name)))
          invalid_header_name
    let b3 = (split_to b2 (s.value_offset + 1)).1
    let (raw_value, b4) = split_to b3 s.value_len
    value ←
        ok_or (H.header_value_from_maybe_shared (M.as_ref (trim_suffix_spaces M raw_value)))
          invalid_header_value
    ok ((name, value), b4)

  unfoldable pub parse_header :
      ReadBuf M → Outcome ParseError (Option (H.HeaderName × H.HeaderValue) × ReadBuf M)
  parse_header b = elim (header_span (chunk b)) [
    | none ↦ ok (none, b)
    | some s ↦ do (header, b') ← take_header b s; ok (some header, b')
  ]
