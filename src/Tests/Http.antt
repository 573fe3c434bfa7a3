-- ===== src/Tests/Http.antt =====
-- The theorems on crates/net/http at concrete inputs.
use hala_rs.Base.{◌≡◌, refl, [], ◌∷◌, ◌++◌, some, ok, err, arith}
use hala_rs.Io.ReadBuf.{Bytes}
use hala_rs.Io.Stream.{Delivery, bytes_of}
use hala_rs.Http.Scan.{skip_newlines}
use hala_rs.Http.Api.{default_config, eof}
use hala_rs.Http.Body.{into_bytes}
use hala_rs.Http.Body.Collect.{into_bytes_all}
use hala_rs.Http.Driver.Total.{Ends}
use hala_rs.Http.Request
use hala_rs.Http.Request.{Requester}
use hala_rs.Http.Driver.Conserve.{Consumes}
use hala_rs.Http.Request.Parse
use hala_rs.Http.Request.Parse.{parse_body_suffix, parse-Ends}
use hala_rs.Http.Request.Printed.{print_request, builder_of}
use hala_rs.Http.Request.RoundTrip.{parse-print}
use hala_rs.Http.Request.SplitTerminator.{print_line, line_end_reads, split_terminator_lost}
use hala_rs.Http.Response
use hala_rs.Http.Response.Parse.{response-Ends}
use hala_rs.Http.Scan.Newlines.{line_ends, classify, skip_newlines_lem}
use hala_rs.Tests.Fixtures.{growing, texts, get, get-IsRequest, cons_nonempty}

abbrev body : Bytes
body = b'\n' ∷ b'h' ∷ b'i' ∷ []

parse-print_example :
    Parse.parse growing texts default_config (Delivery.chunk (print_request get body) ∷ [])
    ≡ some (ok (builder_of get, record { cached = b'h' ∷ b'i' ∷ []; stream = [] }))
unfolding line_ends
parse-print_example =
    parse-print growing texts default_config get body [] (builder_of get) get-IsRequest
      (omega arith) refl

parse_body_suffix_example :
    (head : Bytes) × (p : Requester texts) × (bytes_of
        (Delivery.chunk (print_request get body) ∷ [])
      ≡ head ++ ((b'h' ∷ b'i' ∷ []) ++ []))
    × Consumes (Parse.machine growing texts) (Request.new texts) head p
    × (texts.request_body p.builder ≡ some (builder_of get))
unfolding bytes_of
parse_body_suffix_example =
    parse_body_suffix growing texts default_config (Delivery.chunk (print_request get body) ∷ [])
      (builder_of get) (record { cached = b'h' ∷ b'i' ∷ []; stream = [] }) parse-print_example

split_terminator_lost_example :
    Parse.parse growing texts default_config (Delivery.chunk (print_line get) ∷ line_end_reads 2)
    ≡ some (err eof)
split_terminator_lost_example =
    split_terminator_lost growing texts default_config get 2 get-IsRequest (λ b. omega arith)

parse-Ends_example :
    Ends (Parse.parse growing texts default_config (Delivery.chunk (print_line get) ∷ []))
parse-Ends_example = parse-Ends growing texts default_config (Delivery.chunk (print_line get) ∷ [])

into_bytes_all_example :
    (buf : Bytes) × (into_bytes growing
        (record { cached = b'a' ∷ []; stream = Delivery.chunk body ∷ [] })
        1
      ≡ some (ok buf))
    × (buf ≡ b'a' ∷ b'\n' ∷ b'h' ∷ b'i' ∷ [])
unfolding bytes_of
into_bytes_all_example =
    into_bytes_all growing (λ b e. absurd (omega (arith, e)))
      (record { cached = b'a' ∷ []; stream = Delivery.chunk body ∷ [] }) 1
      (cons_nonempty b'\n' (b'h' ∷ b'i' ∷ []), tt)

skip_newlines_lem_example :
    skip_newlines (b'\r' ∷ b'\n' ∷ body)
    ≡ classify (line_ends (b'\r' ∷ b'\n' ∷ body)).0 (line_ends (b'\r' ∷ b'\n' ∷ body)).1
skip_newlines_lem_example = skip_newlines_lem (b'\r' ∷ b'\n' ∷ body)

response-Ends_example :
    Ends (Response.Parse.parse growing texts default_config (Delivery.chunk (b'H' ∷ []) ∷ []))
response-Ends_example = response-Ends growing texts default_config (Delivery.chunk (b'H' ∷ []) ∷ [])
