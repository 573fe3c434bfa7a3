-- ===== src/Http/Response.antt =====
-- crates/net/http/src/parse.rs, `Responser`: the states, one function for each, and `parse`.
pub mod Steps
pub mod Parse
use hala_rs.Base.{
  ℕ, Bool, true, false, Option, none, some, [], Outcome, ok, err, ok_or, ◌>>=◌, leb, if◌then◌else◌,
  length, take,
}
use hala_rs.Io.ReadBuf.{Bytes, BytesMut, ReadBuf, chunk, split_to}
use hala_rs.Http.Api.{ParseError, invalid_version, invalid_status_code, HttpCrate}
use hala_rs.Http.Scan
use hala_rs.Http.Scan.{SkipNewLine, none_found, one, break, VersionScan, found, bad}
use hala_rs.Http.Header.{skip_newlines, parse_header}
use hala_rs.Http.Driver.{Flow, next_round, break_inner, break_out}

-- `ResponseParseState`
pub data ParseState : Type 0 where
  version status_code reason headers finished : ParseState

unfoldable pub next : ParseState → ParseState
next version = status_code
next status_code = reason
next reason = headers
next headers = finished
next finished = finished

pub record Responser (H : HttpCrate) : Type 0 where
  pub state : ParseState
  pub builder : H.ResponseBuilder
  pub reason : Option Bytes

abbrev pub Parsing : BytesMut → HttpCrate → Type 0
Parsing M H = Outcome ParseError (Bool × Responser H × ReadBuf M)

-- `parse_code`
unfoldable pub parse_code : (H : HttpCrate) → Bytes → Outcome ParseError (Option H.StatusCode)
parse_code H buf =
    if leb 3 (length buf)
    then (do code ← ok_or (H.status_from_bytes (take 3 buf)) invalid_status_code; ok (some code))
    else ok none

module _ {M : BytesMut} (H : HttpCrate) where
  abbrev pub skip_spaces : ReadBuf M → ReadBuf M
  skip_spaces b = (split_to b (Scan.skip_spaces (chunk b))).1

  unfoldable pub parse_version : Responser H → ReadBuf M → Parsing M H
  unfolding next
  parse_version p b0 =
      let b = skip_spaces b0 in
      elim (Scan.parse_version (chunk b)) [
        | bad ↦ err invalid_version
        | VersionScan.incomplete ↦ ok (false, p, b)
        | found v ↦ ok (
          true,
          record p { state = next p.state; builder = H.response_version p.builder v },
          (split_to b 8).1,
        )
      ]

  unfoldable pub parse_status_code : Responser H → ReadBuf M → Parsing M H
  unfolding next
  parse_status_code p b0 =
      let b = skip_spaces b0 in
      elim (parse_code H (chunk b)) [
        | err e ↦ err e
        | ok none ↦ ok (false, p, b)
        | ok (some code) ↦ ok (
          true,
          record p { state = next p.state; builder = H.response_status p.builder code },
          (split_to b 3).1,
        )
      ]

  unfoldable pub parse_reason : Responser H → ReadBuf M → Parsing M H
  unfolding next
  parse_reason p b0 =
      let b = skip_spaces b0 in
      elim (Scan.parse_reason (chunk b)) [
        | none ↦ ok (false, p, b)
        | some len ↦ ok (
          true,
          record p { state = next p.state; reason = some (M.as_ref (split_to b len).0) },
          (split_to b len).1,
        )
      ]

  -- `parse_header`, behind its skip of line ends.
  unfoldable pub header_line : Responser H → ReadBuf M → Parsing M H
  header_line p b = do
    (found_header, b') ← parse_header H b
    elim found_header [
      | none ↦ ok (false, p, b')
      | some (name, value) ↦
          ok (true, record p { builder = H.response_header p.builder name value }, b')
    ]

  abbrev pub after_newlines : SkipNewLine → Responser H → ReadBuf M → Parsing M H
  after_newlines (break n) p b = ok (false, record p { state = next p.state }, b)
  after_newlines SkipNewLine.incomplete p b = ok (false, p, b)
  after_newlines (one n) p b = header_line p b
  after_newlines none_found p b = header_line p b

  unfoldable pub parse_headers : Responser H → ReadBuf M → Parsing M H
  unfolding next
  parse_headers p b = after_newlines (skip_newlines b).0 p (skip_newlines b).1

  abbrev pub flow : Parsing M H → Outcome ParseError (Flow × Responser H × ReadBuf M)
  flow r = do (go, p, b) ← r; ok (if go then next_round else break_inner, p, b)

  unfoldable pub step_in :
      ParseState → Responser H → ReadBuf M → Outcome ParseError (Flow × Responser H × ReadBuf M)
  step_in version p b = flow (parse_version p b)
  step_in status_code p b = flow (parse_status_code p b)
  step_in reason p b = flow (parse_reason p b)
  step_in headers p b = flow (parse_headers p b)
  step_in finished p b = ok (break_out, p, b)

  unfoldable pub step :
      Responser H → ReadBuf M → Outcome ParseError (Flow × Responser H × ReadBuf M)
  unfolding step_in
  step p b = step_in p.state p b

abbrev pub is_finished : {H : HttpCrate} → Responser H → Bool
is_finished p = test p.state
  where
    test : ParseState → Bool
    test finished = true
    test _ = false

abbrev pub new : (H : HttpCrate) → Responser H
new H = record { state = version; builder = H.response_builder; reason = some [] }
