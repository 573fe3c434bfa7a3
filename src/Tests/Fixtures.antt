-- ===== src/Tests/Fixtures.antt =====
-- Concrete parameters: a growing buffer, and a crate `http` that accepts every text.
use hala_rs.Base.{ℕ, ◌≢◌, refl, List, [], ◌∷◌, ◌++◌, some, take, drop}
use hala_rs.Io.ReadBuf.{Bytes, BytesMut}
use hala_rs.Http.Scan.{http_11, literal}
use hala_rs.Http.Api.{HttpCrate}
use hala_rs.Http.Message.{Field, IsField}
use hala_rs.Http.Request.Printed.{RequestText, IsRequest}

abbrev pub growing : BytesMut
growing = record {
  Buf = Bytes;
  with_capacity = λ n. [];
  as_ref = λ b. b;
  chunk_mut = λ b. (b, 2048);
  advance_mut = λ b bs. b ++ bs;
  split_to = λ b n. (take n b, drop n b);
  split_off = λ b n. (take n b, drop n b);
  advance = λ b n. drop n b;
  as_ref-with_capacity = λ n. refl;
  as_ref-chunk_mut = λ b. refl;
  as_ref-advance_mut = λ b bs h. refl;
  split_to_front = λ b n h. refl;
  split_to_rest = λ b n h. refl;
  split_off_kept = λ b n h. refl;
}

-- A builder and what it builds are the parts in their order.
abbrev pub texts : HttpCrate
texts = record {
  Method = Bytes;
  Uri = Bytes;
  StatusCode = Bytes;
  HeaderName = Bytes;
  HeaderValue = Bytes;
  method_from_bytes = some;
  uri_from_maybe_shared = some;
  status_from_bytes = some;
  header_name_from_bytes = some;
  header_value_from_maybe_shared = some;
  RequestBuilder = List Bytes;
  request_builder = [];
  with_method = λ b m. b ++ (m ∷ []);
  with_uri = λ b u. b ++ (u ∷ []);
  with_version = λ b v. b ++ (literal v ∷ []);
  with_header = λ b n v. b ++ (n ∷ v ∷ []);
  Request = List Bytes;
  request_body = some;
  ResponseBuilder = List Bytes;
  response_builder = [];
  response_status = λ b c. b ++ (c ∷ []);
  response_version = λ b v. b ++ (literal v ∷ []);
  response_header = λ b n v. b ++ (n ∷ v ∷ []);
  Response = List Bytes;
  response_body = some;
}

abbrev pub host : Field texts
host = record {
  name = b'H' ∷ b'o' ∷ [];
  value = b'a' ∷ b'b' ∷ [];
  padding = b' ' ∷ [];
  parsed_name = b'H' ∷ b'o' ∷ [];
  parsed_value = b'a' ∷ b'b' ∷ [];
}

abbrev pub get : RequestText texts
get = record {
  method_text = b'G' ∷ b'E' ∷ b'T' ∷ [];
  uri_text = b'/' ∷ [];
  version = http_11;
  fields = host ∷ [];
  method = b'G' ∷ b'E' ∷ b'T' ∷ [];
  uri = b'/' ∷ [];
}

pub cons_nonempty : (x : ℕ) (xs : Bytes) → x ∷ xs ≢ []
cons_nonempty x xs e = cc

abbrev pub host-IsField : IsField host
host-IsField = record {
  name_trimmed = record {
    first = b'H';
    behind = b'o' ∷ [];
    begins = refl;
    first_plain = (refl, refl);
    before = b'H' ∷ [];
    last = b'o';
    ends = refl;
    last_plain = (refl, refl);
  };
  name_bytes = (refl, (refl, tt));
  value_trimmed = record {
    first = b'a';
    behind = b'b' ∷ [];
    begins = refl;
    first_plain = (refl, refl);
    before = b'a' ∷ [];
    last = b'b';
    ends = refl;
    last_plain = (refl, refl);
  };
  value_bytes = (refl, (refl, tt));
  padding_spaces = (refl, tt);
  name_accepted = refl;
  value_accepted = refl;
}

abbrev pub get-IsRequest : IsRequest get
get-IsRequest = record {
  method_token = (cons_nonempty b'G' (b'E' ∷ b'T' ∷ []), (refl, (refl, (refl, tt))));
  uri_token = (cons_nonempty b'/' [], (refl, tt));
  method_accepted = refl;
  uri_accepted = refl;
  fields_ok = (host-IsField, tt);
}
