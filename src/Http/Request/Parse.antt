-- ===== src/Http/Request/Parse.antt =====
-- crates/net/http/src/parse.rs: `Requester::parse`, `parse_request` and `parse_request_with`.
use hala_rs.Base.{
  ◌≡◌, Option, none, some, Outcome, ok, err, ok_or, ◌>>=◌, ◌++◌, inl, inr, Option-cases,
}
use hala_rs.Io.Error.{ErrorKind}
use hala_rs.Io.ReadBuf.{Bytes, BytesMut, ReadBuf, with_capacity, into_bytes_mut}
use hala_rs.Io.Stream.{Stream, bytes_of}
use hala_rs.Http.Api.{ParseError, http_error, Config, default_config, to_io_error, HttpCrate}
use hala_rs.Http.Body.{BodyReader}
use hala_rs.Http.Driver.{Machine, Looped, run}
use hala_rs.Http.Driver.Total.{Ends, run-Ends}
use hala_rs.Http.Driver.Conserve.{Consumes, Sound, run-Sound}
use hala_rs.Http.Request.{Requester, step, is_finished, new}
use hala_rs.Http.Request.Steps.{step-Round}

module _ (M : BytesMut) (H : HttpCrate) where
  abbrev pub machine : Machine M (Requester H)
  machine = record { step = step H; is_finished = is_finished; rank = λ _. 0; round = step-Round }

  -- `builder.unwrap().body(BodyReader::new(cached, self.stream))`
  abbrev pub finish : Requester H × ReadBuf M × Stream → Outcome ParseError (H.Request × BodyReader)
  finish (p, b, s) = do
    request ← ok_or (H.request_body p.builder) http_error
    ok (request, record { cached = M.as_ref (into_bytes_mut b none); stream = s })

  abbrev pub Parsed : Type 0
  Parsed = Option (Outcome ParseError (H.Request × BodyReader))

  abbrev pub finish_all : Looped machine → Parsed
  finish_all none = none
  finish_all (some r) = some (r >>= finish)

  -- `Requester::parse`
  unfoldable pub parse : Config → Stream → Parsed
  parse config s =
      finish_all (run machine config (new H) (with_capacity config.parsing_headers_max_buf) s)

  abbrev convert : Parsed → Option (Outcome ErrorKind (H.Request × BodyReader))
  convert none = none
  convert (some (ok r)) = some (ok r)
  convert (some (err e)) = some (err (to_io_error e))

  unfoldable pub parse_request_with :
      Stream → Config → Option (Outcome ErrorKind (H.Request × BodyReader))
  parse_request_with s config = convert (parse config s)

  unfoldable pub parse_request : Stream → Option (Outcome ErrorKind (H.Request × BodyReader))
  parse_request s = convert (parse default_config s)

  finish_all-Ends : (r : Looped machine) → Ends r → Ends (finish_all r)
  finish_all-Ends none h = h
  finish_all-Ends (some r) h = tt

  -- On every stream, whatever its reads deliver, `Requester::parse` returns a request or an error.
  pub parse-Ends : (config : Config) (s : Stream) → Ends (parse config s)
  unfolding parse
  parse-Ends config s = finish_all-Ends _ (run-Ends machine config (new H) _ s)

  -- What a result of `parse` says of the bytes `xs` of the stream.
  abbrev pub Conserves : Bytes → Parsed → Type 0
  Conserves xs none = Unit
  Conserves xs (some (ok (r, body))) =
      (head : Bytes) × (p : Requester H) × (xs ≡ head ++ (body.cached ++ bytes_of body.stream))
      × Consumes machine (new H) head p
      × (H.request_body p.builder ≡ some r)
  Conserves xs (some (err e)) = Unit

  finish_all-Conserves :
      (xs : Bytes) (r : Looped machine) → Sound machine (new H) xs r → Conserves xs (finish_all r)
  finish_all-Conserves xs none h = tt
  finish_all-Conserves xs (some (err e)) h = tt
  finish_all-Conserves xs (some (ok (p, b, s))) h = elim (Option-cases (H.request_body p.builder)) [
    | inl e ↦ rw (e, ok_or) tt
    | inr (r, e) ↦ let (head, l, c) = h in rw (e, ok_or) (head, p, l, c, e)
  ]

  parse-Conserves : (config : Config) (s : Stream) → Conserves (bytes_of s) (parse config s)
  unfolding parse
  parse-Conserves config s = finish_all-Conserves _ _ (
      rw (M.as_ref-with_capacity config.parsing_headers_max_buf) at
        (run-Sound machine config (new H) (with_capacity config.parsing_headers_max_buf) s))

  -- When a request is parsed, the bytes of the stream are those that the steps of the parser's states have
  -- taken, from its first state to one whose builder gives the request, and behind them just what the body
  -- reader will deliver: the bytes cached behind the header block, then those left in the stream.
  pub parse_body_suffix :
      (config : Config) (s : Stream) (r : H.Request) (body : BodyReader)
      → parse config s ≡ some (ok (r, body))
      → (head : Bytes) × (p : Requester H) × (bytes_of s
          ≡ head ++ (body.cached ++ bytes_of body.stream))
        × Consumes machine (new H) head p
        × (H.request_body p.builder ≡ some r)
  parse_body_suffix config s r body e =
      let l : Conserves (bytes_of s) (some (ok (r, body))) = rw e at (parse-Conserves config s) in l
