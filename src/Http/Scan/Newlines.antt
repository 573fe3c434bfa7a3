-- ===== src/Http/Scan/Newlines.antt =====
-- `_skip_newlines` of crates/net/http/src/parse.rs against a count of the line ends ahead.
use hala_rs.Base.{
  ℕ, zero, suc, ◌+◌, ◌≤◌, ◌<◌, ◌≡◌, ◌⊎◌, inl, inr, refl, Bool, true, false, ◌&&◌, ◌||◌, [], ◌∷◌,
  arith, ◌==◌, ltb, if◌then◌else◌, length, drop, Bool-cases,
}
use hala_rs.Io.ReadBuf.{Bytes}
use hala_rs.Http.Scan.{
  SkipNewLine, none_found, one, break, skip_newline, skip_newlines_loop, skip_newlines,
}

-- The line ends, `\n` or `\r\n`, that a slice begins with, and the bytes that they take.
unfoldable pub line_ends : Bytes → ℕ × ℕ
line_ends [] = (0, 0)
line_ends (a ∷ []) = if a == b'\n' then (1, 1) else (0, 0)
line_ends (a ∷ b ∷ r) =
    let short = line_ends (b ∷ r) in
    let long = line_ends r in
    if a == b'\n'
    then (short.0 + 1, short.1 + 1)
    else if a == b'\r' && b == b'\n'
    then (long.0 + 1, long.1 + 2)
    else (0, 0)

-- One line end is `One`, two or more are `Break`.
abbrev pub classify : ℕ → ℕ → SkipNewLine
classify n w = if n == 0 then none_found else if n == 1 then one w else break w

-- The line ends that the state of the loop stands for: two of them if it knows of a break.
abbrev seen : ℕ → Bool → ℕ
seen offset is_break = if is_break then 2 else if ltb 0 offset then 1 else 0

line_ends-newline :
    (b : ℕ) (r : Bytes)
    → (b == b'\n') ≡ true
    → ((line_ends (b ∷ r)).0 ≡ (line_ends r).0 + 1) × ((line_ends (b ∷ r)).1 ≡ (line_ends r).1 + 1)
unfolding line_ends
line_ends-newline b [] e = ground arith
line_ends-newline b (c ∷ r) e = ground arith

-- What one call of `_skip_newline` says of the line ends ahead.
data Round (rest : Bytes) : Type 0 where
  last :
      (skip_newline rest ≡ none_found) ⊎ (skip_newline rest ≡ SkipNewLine.incomplete)
      → (line_ends rest).0 ≡ 0
      → (line_ends rest).1 ≡ 0
      → Round rest
  passed :
      (n len : ℕ)
      → ((skip_newline rest ≡ one len) × (n ≡ 1)) ⊎ ((skip_newline rest ≡ break len) × (n ≡ 2))
      → (line_ends rest).0 ≡ (line_ends (drop len rest)).0 + n
      → (line_ends rest).1 ≡ (line_ends (drop len rest)).1 + len
      → length (drop len rest) < length rest
      → 0 < len
      → Round rest

round_pair :
    (a b : ℕ) (r : Bytes) (nl_a nl_b cr_a : Bool)
    → (a == b'\n') ≡ nl_a
    → (b == b'\n') ≡ nl_b
    → (a == b'\r') ≡ cr_a
    → Round (a ∷ b ∷ r)
unfolding skip_newline line_ends
round_pair a b r true true c p q e =
    passed 2 2 (inr (ground arith, refl)) (ground (arith, line_ends-newline b r))
      (ground (arith, line_ends-newline b r)) (omega arith) (omega arith)
round_pair a b r true false c p q e =
    passed 1 1 (inl (ground arith, refl)) (ground arith) (ground arith) (omega arith) (omega arith)
round_pair a b r false true true p q e =
    passed 1 2 (inl (ground arith, refl)) (ground arith) (ground arith) (omega arith) (omega arith)
round_pair a b r false false true p q e = last (inr (ground arith)) (ground arith) (ground arith)
round_pair a b r false nl false p q e = last (inl (ground arith)) (ground arith) (ground arith)

round : (rest : Bytes) → Round rest
unfolding skip_newline line_ends
round [] = last (inl refl) refl refl
round (a ∷ []) = elim (Bool-cases (a == b'\n')) [
  | inl e ↦
      passed 1 1 (inl (ground arith, refl)) (ground arith) (ground arith) (omega arith)
        (omega arith)
  | inr e ↦ last (ground arith) (ground arith) (ground arith)
]
round (a ∷ b ∷ r) = round_pair a b r _ _ _ refl refl refl

skip_newlines_loop_lem :
    (fuel : ℕ) (rest : Bytes) (offset : ℕ) (is_break : Bool)
    → length rest ≤ fuel
    → skip_newlines_loop fuel rest offset is_break
      ≡ classify (seen offset is_break + (line_ends rest).0) (offset + (line_ends rest).1)
unfolding skip_newlines_loop
skip_newlines_loop_lem zero [] offset is_break h = unfold line_ends in ground arith
skip_newlines_loop_lem zero (a ∷ r) offset is_break h = absurd (omega arith)
skip_newlines_loop_lem (suc fuel) rest offset is_break h = elim (round rest) [
  | last (inl e) z w ↦ rw (e, skip_newlines_loop) (ground arith)
  | last (inr e) z w ↦ rw (e, skip_newlines_loop) (ground arith)
  | passed n len (inl (e, one_more)) c w shorter pos ↦
      rw (e, skip_newlines_loop)
        (ground (
          arith,
          skip_newlines_loop_lem fuel (drop len rest) (offset + len) (ltb 0 offset || is_break),
        ))
  | passed n len (inr (e, two_more)) c w shorter pos ↦
      rw (e, skip_newlines_loop)
        (ground (arith, skip_newlines_loop_lem fuel (drop len rest) (offset + len) true))
]

-- The loop of `_skip_newlines` finds nothing, one line end or a break exactly as the slice begins
-- with no, one or more line ends, and its offset is the number of bytes that they take.
pub skip_newlines_lem :
    (buf : Bytes) → skip_newlines buf ≡ classify (line_ends buf).0 (line_ends buf).1
unfolding skip_newlines
skip_newlines_lem buf = ground (arith, skip_newlines_loop_lem (length buf) buf 0 false)

pub line_ends-le : (buf : Bytes) → (line_ends buf).1 ≤ length buf
unfolding line_ends
line_ends-le [] = omega arith
line_ends-le (a ∷ []) = ground arith
line_ends-le (a ∷ b ∷ r) = ground (arith, line_ends-le (b ∷ r), line_ends-le r)

pub line_ends-zero : (buf : Bytes) → (line_ends buf).0 ≡ 0 → (line_ends buf).1 ≡ 0
unfolding line_ends
line_ends-zero [] e = refl
line_ends-zero (a ∷ []) e = ground arith
line_ends-zero (a ∷ b ∷ r) e = ground arith

-- No line end begins with any other byte.
pub line_ends-plain :
    (c : ℕ) (r : Bytes)
    → (c == b'\n') ≡ false
    → (c == b'\r') ≡ false
    → ((line_ends (c ∷ r)).0 ≡ 0) × ((line_ends (c ∷ r)).1 ≡ 0)
unfolding line_ends
line_ends-plain c [] e f = ground arith
line_ends-plain c (d ∷ r) e f = ground arith

pub line_ends-crlf :
    (r : Bytes)
    → ((line_ends (b'\r' ∷ b'\n' ∷ r)).0 ≡ (line_ends r).0 + 1)
      × ((line_ends (b'\r' ∷ b'\n' ∷ r)).1 ≡ (line_ends r).1 + 2)
unfolding line_ends
line_ends-crlf r = (refl, refl)
