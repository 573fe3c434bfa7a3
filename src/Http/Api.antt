-- ===== src/Http/Api.antt =====
-- The error type of crates/net/http/src/parse.rs, its configuration, and the types and calls of the
-- crate `http` that the parsers use, which are a parameter.
use hala_rs.Base.{ℕ, Option}
use hala_rs.Io.Error.{ErrorKind}
use hala_rs.Io.ReadBuf.{Bytes}
use hala_rs.Http.Scan.{Version}

-- `ParseError`, without the opaque values that the `http` crate's errors carry.
pub data ParseError : Type 0 where
  http_error : ParseError
  parse_buf_overflow : ℕ → ParseError
  io_error : ErrorKind → ParseError
  eof : ParseError
  miss_method : ParseError
  invalid_method : ParseError
  miss_uri : ParseError
  invalid_uri : ParseError
  invalid_version : ParseError
  invalid_header_name : ParseError
  invalid_header_value : ParseError
  invalid_status_code : ParseError
  serde_json_error : ParseError

-- The errors that the functions on the buffer return, which never read the stream.
abbrev pub IsLocal : ParseError → Type 0
IsLocal (ParseError.parse_buf_overflow n) = ⊥
IsLocal (ParseError.io_error e) = ⊥
IsLocal ParseError.eof = ⊥
IsLocal _ = Unit

pub record Config : Type 0 where
  pub parsing_headers_max_buf : ℕ

abbrev pub default_config : Config
default_config = record { parsing_headers_max_buf = 2048 }

-- `From<ParseError> for io::Error`
abbrev pub to_io_error : ParseError → ErrorKind
to_io_error (ParseError.io_error e) = e
to_io_error _ = ErrorKind.other

pub record HttpCrate : Type 1 where
  pub Method : Type 0
  pub Uri : Type 0
  pub StatusCode : Type 0
  pub HeaderName : Type 0
  pub HeaderValue : Type 0
  pub method_from_bytes : Bytes → Option Method
  pub uri_from_maybe_shared : Bytes → Option Uri
  pub status_from_bytes : Bytes → Option StatusCode
  pub header_name_from_bytes : Bytes → Option HeaderName
  pub header_value_from_maybe_shared : Bytes → Option HeaderValue
  pub RequestBuilder : Type 0
  pub request_builder : RequestBuilder
  pub with_method : RequestBuilder → Method → RequestBuilder
  pub with_uri : RequestBuilder → Uri → RequestBuilder
  pub with_version : RequestBuilder → Version → RequestBuilder
  pub with_header : RequestBuilder → HeaderName → HeaderValue → RequestBuilder
  pub Request : Type 0
  pub request_body : RequestBuilder → Option Request
  pub ResponseBuilder : Type 0
  pub response_builder : ResponseBuilder
  pub response_status : ResponseBuilder → StatusCode → ResponseBuilder
  pub response_version : ResponseBuilder → Version → ResponseBuilder
  pub response_header : ResponseBuilder → HeaderName → HeaderValue → ResponseBuilder
  pub Response : Type 0
  pub response_body : ResponseBuilder → Option Response
