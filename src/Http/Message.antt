-- ===== src/Http/Message.antt =====
-- The text of an HTTP header block, as RFC 7230 writes it, for round trips through the parsers of
-- crates/net/http/src/parse.rs. It stands for no code of the crate.
pub mod Block
use hala_rs.Base.{
  ℕ, zero, suc, ◌+◌, ◌≤◌, ◌≡◌, refl, sym, ap, ◌∙◌, Bool, true, false, Option, none, some, List, [],
  ◌∷◌, ◌++◌, append_assoc, append-nil, Outcome, ok, arith, length, length-append, drop,
  drop-length-append, All, All-append,
}
use hala_rs.Io.ReadBuf.{Bytes, BytesMut, ReadBuf, chunk, split_to}
use hala_rs.Http.Scan
use hala_rs.Http.Scan.{is_space, is_line_end, is_colon}
use hala_rs.Http.Scan.Laws.{skip_spaces-append, find_offset-append}
use hala_rs.Http.Api.{HttpCrate, ParseError}
use hala_rs.Http.Header.{header_span, take_header, parse_header, trim_suffix_spaces}
use hala_rs.Http.Header.Cuts.{split_to_front, split_to_rest, trim_suffix_spaces_lem}

-- Neither a space nor the end of a line.
abbrev pub IsPlain : ℕ → Type 0
IsPlain c = (is_space c ≡ false) × (is_line_end c ≡ false)

-- A header line `name: value`, with spaces behind the value, and what the crate `http` makes of it.
pub record Field (H : HttpCrate) : Type 0 where
  pub name : Bytes
  pub value : Bytes
  pub padding : Bytes
  pub parsed_name : H.HeaderName
  pub parsed_value : H.HeaderValue

-- A text that begins and ends with a plain byte.
pub record IsTrimmed (xs : Bytes) : Type 0 where
  pub first : ℕ
  pub behind : Bytes
  pub begins : xs ≡ first ∷ behind
  pub first_plain : IsPlain first
  pub before : Bytes
  pub last : ℕ
  pub ends : xs ≡ before ++ (last ∷ [])
  pub last_plain : IsPlain last

pub record IsField {H : HttpCrate} (f : Field H) : Type 0 where
  pub name_trimmed : IsTrimmed f.name
  pub name_bytes : All (λ c. is_colon c ≡ false) f.name
  pub value_trimmed : IsTrimmed f.value
  pub value_bytes : All (λ c. is_line_end c ≡ false) f.value
  pub padding_spaces : All (λ c. is_space c ≡ true) f.padding
  pub name_accepted : H.header_name_from_bytes f.name ≡ some f.parsed_name
  pub value_accepted : H.header_value_from_maybe_shared f.value ≡ some f.parsed_value

-- The header block with the line end in front of it, and the body behind it.
abbrev pub print_fields : {H : HttpCrate} → List (Field H) → Bytes → Bytes
print_fields [] body = b'\r' ∷ b'\n' ∷ b'\r' ∷ b'\n' ∷ body
print_fields (f ∷ fs) body =
    b'\r' ∷ b'\n' ∷ (f.name ++ (b':' ∷ b' ' ∷ ((f.value ++ f.padding) ++ print_fields fs body)))

drop_past :
    (xs : Bytes) (c : ℕ) (ys : Bytes) (n : ℕ) → n ≡ length xs + 1 → drop n (xs ++ (c ∷ ys)) ≡ ys
drop_past xs c ys n e =
    let f : n ≡ length (xs ++ (c ∷ [])) = omega (arith, length-append xs (c ∷ [])) in
    rw (f, ← append_assoc xs (c ∷ []) ys) (drop-length-append (xs ++ (c ∷ [])) ys)

append_colon_space : (xs ys : Bytes) → (xs ++ (b':' ∷ [])) ++ (b' ' ∷ ys) ≡ xs ++ (b':' ∷ b' ' ∷ ys)
append_colon_space xs ys = append_assoc xs (b':' ∷ []) (b' ' ∷ ys)

header_span_lem :
    (name val rest : Bytes)
    → IsTrimmed name
    → All (λ c. is_colon c ≡ false) name
    → (v : ℕ) (vs : Bytes) → val ≡ v ∷ vs
    → is_space v ≡ false
    → All (λ c. is_line_end c ≡ false) val
    → header_span (name ++ (b':' ∷ b' ' ∷ (val ++ (b'\r' ∷ rest))))
      ≡ some (record {
        name_offset = 0;
        name_len = length name;
        value_offset = 1;
        value_len = length val;
      })
unfolding header_span
header_span_lem name val rest t colons v vs starts plain lines =
    let whole = name ++ (b':' ∷ b' ' ∷ (val ++ (b'\r' ∷ rest))) in
    let e1 : Scan.skip_spaces whole ≡ 0 =
      rw t.begins (skip_spaces-append [] t.first _ tt t.first_plain.0) in
    let e2 = find_offset-append is_colon name b':' (b' ' ∷ (val ++ (b'\r' ∷ rest))) colons refl in
    let e3 : drop (0 + (length name + 1)) whole ≡ b' ' ∷ (val ++ (b'\r' ∷ rest)) =
      drop_past name b':' _ _ (omega arith) in
    let e4 : Scan.skip_spaces (b' ' ∷ (val ++ (b'\r' ∷ rest))) ≡ 1 =
      rw starts (skip_spaces-append (b' ' ∷ []) v (vs ++ (b'\r' ∷ rest)) (refl, tt) plain) in
    let e5 : drop (0 + (length name + 1) + 1) whole ≡ val ++ (b'\r' ∷ rest) =
      rw (← append_colon_space name (val ++ (b'\r' ∷ rest))) (
        drop_past (name ++ (b':' ∷ [])) b' ' _ _ (omega (arith, length-append name (b':' ∷ [])))) in
    let e6 = find_offset-append is_line_end val b'\r' rest lines refl in
    rw (e1, e2, e1, e3, e4, e5, e6, e1, e3, e4, header_span)

spaces_lines : (xs : Bytes) → All (λ c. is_space c ≡ true) xs → All (λ c. is_line_end c ≡ false) xs
spaces_lines [] h = tt
spaces_lines (x ∷ xs) h = (ground arith, spaces_lines xs h.1)

-- `parse_header` on the front of a printed line: the field, and the line end left on the buffer.
pub parse_header-print :
    {M : BytesMut} {H : HttpCrate} (f : Field H) (b : ReadBuf M) (rest : Bytes)
    → IsField f
    → chunk b ≡ f.name ++ (b':' ∷ b' ' ∷ ((f.value ++ f.padding) ++ (b'\r' ∷ rest)))
    → (b' : ReadBuf M) × (parse_header H b ≡ ok (some (f.parsed_name, f.parsed_value), b'))
      × (chunk b' ≡ b'\r' ∷ rest)
unfolding parse_header take_header
parse_header-print {M} {H} f b rest h whole =
    let val = f.value ++ f.padding in
    let v = h.value_trimmed in
    let t = h.name_trimmed in
    let lines =
      All-append (λ c. is_line_end c ≡ false) f.value f.padding h.value_bytes
        (spaces_lines f.padding h.padding_spaces) in
    let span =
      ap header_span whole
      ∙ header_span_lem f.name val rest t h.name_bytes v.first (v.behind ++ f.padding)
          (ap (λ l. l ++ f.padding) v.begins) v.first_plain.0 lines in
    let b1 = (split_to b 0).1 in
    let c1 = split_to_rest b [] _ whole in
    let b2 = (split_to b1 (length f.name)).1 in
    let n1 = split_to_front b1 f.name _ c1 in
    let c2 = split_to_rest b1 f.name _ c1 in
    let b3 = (split_to b2 2).1 in
    let c3 = split_to_rest b2 (b':' ∷ b' ' ∷ []) _ c2 in
    let v3 = split_to_front b3 val _ c3 in
    let c4 = split_to_rest b3 val _ c3 in
    let name_ok : M.as_ref (trim_suffix_spaces M (split_to b1 (length f.name)).0) ≡ f.name =
      trim_suffix_spaces_lem M (split_to b1 (length f.name)).0 t.before t.last []
        (n1 ∙ t.ends ∙ sym (append-nil _)) t.last_plain.0 tt
      ∙ sym t.ends in
    let value_ok : M.as_ref (trim_suffix_spaces M (split_to b3 (length val)).0) ≡ f.value =
      trim_suffix_spaces_lem M (split_to b3 (length val)).0 v.before v.last f.padding
        (v3 ∙ ap (λ l. l ++ f.padding) v.ends) v.last_plain.0 h.padding_spaces
      ∙ sym v.ends in
    (
      (split_to b3 (length val)).1,
      rw (
        span,
        ap H.header_name_from_bytes name_ok ∙ h.name_accepted,
        ap H.header_value_from_maybe_shared value_ok ∙ h.value_accepted,
        parse_header,
        take_header,
      ),
      c4,
    )
