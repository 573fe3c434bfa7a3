-- ===== src/Http/Request.antt =====
-- crates/net/http/src/parse.rs, `Requester`: the states, one function for each, and `parse`.
pub mod Steps
pub mod Parse
pub mod Printed
pub mod RoundTrip
pub mod SplitTerminator
use hala_rs.Base.{
  ℕ, ◌≡◌, Bool, true, false, Option, none, some, Outcome, ok, err, ok_or, ◌>>=◌, ◌==◌,
  if◌then◌else◌, length,
}
use hala_rs.Io.ReadBuf.{Bytes, BytesMut, ReadBuf, chunk, split_to, with_capacity, into_bytes_mut}
use hala_rs.Io.Stream.{Stream}
use hala_rs.Http.Api.{
  ParseError, http_error, miss_method, invalid_method, miss_uri, invalid_uri, invalid_version,
  Config, default_config, HttpCrate,
}
use hala_rs.Http.Scan
use hala_rs.Http.Scan.{SkipNewLine, none_found, one, break, VersionScan, found, bad}
use hala_rs.Http.Header.{skip_newlines, parse_header}
use hala_rs.Http.Driver.{Flow, next_round, break_inner, break_out}
use hala_rs.Http.Body.{BodyReader}

-- `RequestParseState`
pub data ParseState : Type 0 where
  method uri version headers finished : ParseState

-- `next` adds 1 to the discriminant, and does nothing in the last state.
unfoldable pub next : ParseState → ParseState
next method = uri
next uri = version
next version = headers
next headers = finished
next finished = finished

-- The stream and the configuration are arguments of `parse`.
pub record Requester (H : HttpCrate) : Type 0 where
  pub state : ParseState
  pub builder : H.RequestBuilder

module _ {M : BytesMut} where
  -- The method `skip_spaces` of both parsers.
  abbrev pub skip_spaces : ReadBuf M → ReadBuf M
  skip_spaces b = (split_to b (Scan.skip_spaces (chunk b))).1

abbrev pub Parsing : BytesMut → HttpCrate → Type 0
Parsing M H = Outcome ParseError (Bool × Requester H × ReadBuf M)

module _ {M : BytesMut} (H : HttpCrate) where
  -- The body that `parse_method` and `parse_uri` share: a token, its conversion, and the new state.
  unfoldable pub take_token :
      {V : Type 0} (missing invalid : ParseError) (from_bytes : Bytes → Option V)
      (set : V → Requester H)
      → Requester H
      → ReadBuf M
      → Parsing M H
  take_token missing invalid from_bytes set p b0 =
      let b = skip_spaces b0 in
      elim (Scan.parse_token (chunk b)) [
        | none ↦ ok (false, p, b)
        | some len ↦ if len == 0 then err missing else (do
          let (buf, b') = split_to b len
          v ← ok_or (from_bytes (M.as_ref buf)) invalid
          ok (true, set v, b'))
      ]

  unfoldable pub parse_method : Requester H → ReadBuf M → Parsing M H
  unfolding next
  parse_method p =
      take_token miss_method invalid_method H.method_from_bytes
        (λ m. record { state = next p.state; builder = H.with_method p.builder m }) p

  unfoldable pub parse_uri : Requester H → ReadBuf M → Parsing M H
  unfolding next
  parse_uri p =
      take_token miss_uri invalid_uri H.uri_from_maybe_shared
        (λ u. record { state = next p.state; builder = H.with_uri p.builder u }) p

  unfoldable pub parse_version : Requester H → ReadBuf M → Parsing M H
  unfolding next
  parse_version p b0 =
      let b = skip_spaces b0 in
      elim (Scan.parse_version (chunk b)) [
        | bad ↦ err invalid_version
        | VersionScan.incomplete ↦ ok (false, p, b)
        | found v ↦ ok (
          true,
          record { state = next p.state; builder = H.with_version p.builder v },
          (split_to b 8).1,
        )
      ]

  -- `parse_header`, behind its skip of line ends.
  unfoldable pub header_line : Requester H → ReadBuf M → Parsing M H
  header_line p b = do
    (found_header, b') ← parse_header H b
    elim found_header [
      | none ↦ ok (false, p, b')
      | some (name, value) ↦
          ok (true, record p { builder = H.with_header p.builder name value }, b')
    ]

  -- The `match` of `Requester::parse_header` on what the skip of line ends found.
  abbrev pub after_newlines : SkipNewLine → Requester H → ReadBuf M → Parsing M H
  after_newlines (break n) p b = ok (false, record p { state = next p.state }, b)
  after_newlines SkipNewLine.incomplete p b = ok (false, p, b)
  after_newlines (one n) p b = header_line p b
  after_newlines none_found p b = header_line p b

  unfoldable pub parse_headers : Requester H → ReadBuf M → Parsing M H
  unfolding next
  parse_headers p b = after_newlines (skip_newlines b).0 p (skip_newlines b).1

  -- `if !self.parse_…(&mut read_buf)? { break 'inner }`
  abbrev pub flow : Parsing M H → Outcome ParseError (Flow × Requester H × ReadBuf M)
  flow r = do (go, p, b) ← r; ok (if go then next_round else break_inner, p, b)

  unfoldable pub step_in :
      ParseState → Requester H → ReadBuf M → Outcome ParseError (Flow × Requester H × ReadBuf M)
  step_in method p b = flow (parse_method p b)
  step_in uri p b = flow (parse_uri p b)
  step_in version p b = flow (parse_version p b)
  step_in headers p b = flow (parse_headers p b)
  step_in finished p b = ok (break_out, p, b)

  -- The `match self.state` of the inner loop.
  unfoldable pub step :
      Requester H → ReadBuf M → Outcome ParseError (Flow × Requester H × ReadBuf M)
  unfolding step_in
  step p b = step_in p.state p b

abbrev pub is_finished : {H : HttpCrate} → Requester H → Bool
is_finished p = test p.state
  where
    test : ParseState → Bool
    test finished = true
    test _ = false

abbrev pub new : (H : HttpCrate) → Requester H
new H = record { state = method; builder = H.request_builder }
