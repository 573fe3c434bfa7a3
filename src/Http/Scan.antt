-- ===== src/Http/Scan.antt =====
-- crates/net/http/src/parse.rs, the scanners over a byte slice. A `for` over `enumerate` is a
-- recursion on the slice, and the offset that it returns counts the bytes passed.
pub mod Laws
pub mod Newlines
use hala_rs.Base.{
  ℕ, zero, suc, ◌+◌, ◌≤◌, ◌≡◌, Bool, true, false, ◌&&◌, ◌||◌, not, Option, none, some, List, [],
  ◌∷◌, ◌==◌, leb, ltb, if◌then◌else◌, length, take, drop,
}
use mathlib.Core.List.{reverse}
use mathlib.Core.Option
use hala_rs.Io.ReadBuf.{Bytes}

abbrev pub is_space : ℕ → Bool
is_space c = c == b' ' || c == b'\t'

abbrev pub is_line_end : ℕ → Bool
is_line_end c = c == b'\r' || c == b'\n'

unfoldable pub skip_spaces : Bytes → ℕ
skip_spaces [] = 0
skip_spaces (c ∷ cs) = if not (is_space c) then 0 else suc (skip_spaces cs)

-- The loop that `parse_token`, `parse_header_name`, `parse_header_value` and `parse_reason` share:
-- the offset of the first byte that passes the test.
unfoldable pub find_offset : (ℕ → Bool) → Bytes → Option ℕ
find_offset stop [] = none
find_offset stop (c ∷ cs) = if stop c then some 0 else Option.map suc (find_offset stop cs)

abbrev pub ends_token : ℕ → Bool
ends_token c = is_space c || is_line_end c

abbrev pub is_colon : ℕ → Bool
is_colon c = c == b':'

abbrev pub parse_token : Bytes → Option ℕ
parse_token = find_offset ends_token

abbrev pub parse_header_name : Bytes → Option ℕ
parse_header_name = find_offset is_colon

abbrev pub parse_header_value : Bytes → Option ℕ
parse_header_value = find_offset is_line_end

abbrev pub parse_reason : Bytes → Option ℕ
parse_reason = find_offset is_line_end

-- The bytes from the end of a slice up to its last byte that is no space; `none` if there is none.
abbrev pub suffix_spaces : Bytes → Option ℕ
suffix_spaces buf = find_offset (λ c. not (is_space c)) (reverse buf)

abbrev pub eq_bytes : Bytes → Bytes → Bool
eq_bytes [] [] = true
eq_bytes [] (b ∷ bs) = false
eq_bytes (a ∷ as') [] = false
eq_bytes (a ∷ as') (b ∷ bs) = a == b && eq_bytes as' bs

pub data Version : Type 0 where
  http_09 http_10 http_11 http_2 http_3 : Version

-- The literal that `parse_version` matches for a version: `HTTP/` and the two digits.
abbrev pub literal : Version → Bytes
literal v = b'H' ∷ b'T' ∷ b'T' ∷ b'P' ∷ b'/' ∷ digits v
  where
    digits : Version → Bytes
    digits http_09 = b'0' ∷ b'.' ∷ b'9' ∷ []
    digits http_10 = b'1' ∷ b'.' ∷ b'0' ∷ []
    digits http_11 = b'1' ∷ b'.' ∷ b'1' ∷ []
    digits http_2 = b'2' ∷ b'.' ∷ b'0' ∷ []
    digits http_3 = b'3' ∷ b'.' ∷ b'0' ∷ []

-- The arms of the `match` in `parse_version`, in their order.
unfoldable pub match_version : Bytes → Option Version
match_version w =
    if eq_bytes w (literal http_09)
    then some http_09
    else if eq_bytes w (literal http_10)
    then some http_10
    else if eq_bytes w (literal http_11)
    then some http_11
    else if eq_bytes w (literal http_2)
    then some http_2
    else if eq_bytes w (literal http_3)
    then some http_3
    else none

pub data VersionScan : Type 0 where
  incomplete : VersionScan
  found : Version → VersionScan
  bad : VersionScan

abbrev scan_of : Option Version → VersionScan
scan_of none = bad
scan_of (some v) = found v

unfoldable pub parse_version : Bytes → VersionScan
parse_version buf = if leb 8 (length buf) then scan_of (match_version (take 8 buf)) else incomplete

-- result of `_skip_newline`
pub data SkipNewLine : Type 0 where
  none_found : SkipNewLine
  one : ℕ → SkipNewLine
  break : ℕ → SkipNewLine
  incomplete : SkipNewLine

-- The second half of `_skip_newline`: the test on `buf[0]`.
abbrev first_byte : ℕ → SkipNewLine
first_byte a =
    if a == b'\n' then one 1 else if a == b'\r' then SkipNewLine.incomplete else none_found

unfoldable pub skip_newline : Bytes → SkipNewLine
skip_newline [] = none_found
skip_newline (a ∷ []) = first_byte a
skip_newline (a ∷ b ∷ r) =
    if a == b'\r' && b == b'\n'
    then one 2
    else if a == b'\n' && b == b'\n'
    then break 2
    else first_byte a

-- The two exits of the loop in `_skip_newlines`.
abbrev newlines_end : ℕ → Bool → SkipNewLine
newlines_end offset is_break =
    if is_break then break offset else if ltb 0 offset then one offset else none_found

-- The loop of `_skip_newlines`, on `rest = buf[offset..]`; each round but the last passes a byte.
unfoldable pub skip_newlines_loop : ℕ → Bytes → ℕ → Bool → SkipNewLine
skip_newlines_loop zero rest offset is_break = newlines_end offset is_break
skip_newlines_loop (suc fuel) rest offset is_break = elim (skip_newline rest) [
  | none_found ↦ newlines_end offset is_break
  | incomplete ↦ newlines_end offset is_break
  | one len ↦ skip_newlines_loop fuel (drop len rest) (offset + len) (ltb 0 offset || is_break)
  | break len ↦ skip_newlines_loop fuel (drop len rest) (offset + len) true
]

unfoldable pub skip_newlines : Bytes → SkipNewLine
unfolding skip_newlines_loop
skip_newlines buf = skip_newlines_loop (length buf) buf 0 false
