-- ===== src/Http/Scan/Laws.antt =====
-- What the scanners of crates/net/http/src/parse.rs find, and where.
use hala_rs.Base.{
  ℕ, zero, suc, ◌≤◌, ◌<◌, ◌≡◌, ◌↔◌, ◌⊎◌, inl, inr, leb, refl, Bool, true, false, none, some, [],
  ◌∷◌, ◌++◌, arith, ==_iff, length, take, All, Bool-cases, Option-cases,
}
use hala_rs.Io.ReadBuf.{Bytes}
use hala_rs.Http.Scan
use hala_rs.Http.Scan.{
  is_space, skip_spaces, find_offset, eq_bytes, VersionScan, bad, found, Version, match_version,
}

pub skip_spaces-le : (bs : Bytes) → skip_spaces bs ≤ length bs
unfolding skip_spaces
skip_spaces-le [] = omega arith
skip_spaces-le (c ∷ cs) = ground (arith, skip_spaces-le cs)

-- The scanner stops at the first byte that is no space.
pub skip_spaces-append :
    (xs : Bytes) (c : ℕ) (ys : Bytes)
    → All (λ a. is_space a ≡ true) xs
    → is_space c ≡ false
    → skip_spaces (xs ++ (c ∷ ys)) ≡ length xs
unfolding skip_spaces
skip_spaces-append [] c ys h e = ground arith
skip_spaces-append (x ∷ xs) c ys h e = ground (arith, skip_spaces-append xs c ys h.1)

module _ (stop : ℕ → Bool) where
  pub find_offset-lt : (bs : Bytes) (n : ℕ) → find_offset stop bs ≡ some n → n < length bs
  unfolding find_offset
  find_offset-lt [] n e = cc
  find_offset-lt (c ∷ cs) zero e = omega arith
  find_offset-lt (c ∷ cs) (suc n) e = ground (arith, find_offset-lt cs n)

  -- The first byte that passes the test is found at the end of those that do not.
  pub find_offset-append :
      (xs : Bytes) (c : ℕ) (ys : Bytes)
      → All (λ a. stop a ≡ false) xs
      → stop c ≡ true
      → find_offset stop (xs ++ (c ∷ ys)) ≡ some (length xs)
  unfolding find_offset
  find_offset-append [] c ys h e = ground arith
  find_offset-append (x ∷ xs) c ys h e = ground (arith, find_offset-append xs c ys h.1)

  pub find_offset-none : (bs : Bytes) → All (λ a. stop a ≡ false) bs → find_offset stop bs ≡ none
  unfolding find_offset
  find_offset-none [] h = refl
  find_offset-none (b ∷ bs) h = ground (arith, find_offset-none bs h.1)

pub eq_bytes_iff : (xs ys : Bytes) → (eq_bytes xs ys ≡ true) ↔ (xs ≡ ys)
eq_bytes_iff [] [] = (λ _. refl, λ _. refl)
eq_bytes_iff [] (y ∷ ys) = (λ e. cc, λ e. cc)
eq_bytes_iff (x ∷ xs) [] = (λ e. cc, λ e. cc)
eq_bytes_iff (x ∷ xs) (y ∷ ys) = let ih = eq_bytes_iff xs ys in ground (arith, ih, ==_iff x y)

-- `parse_version` waits, fails, or has a version in the first eight bytes.
pub version_cases :
    (bs : Bytes)
    → (Scan.parse_version bs ≡ bad)
      ⊎ ((Scan.parse_version bs ≡ VersionScan.incomplete)
          ⊎ ((v : Version) × (Scan.parse_version bs ≡ found v) × (8 ≤ length bs)))
unfolding Scan.parse_version
version_cases bs = elim (Bool-cases (leb 8 (length bs))) [
  | inl e ↦ elim (Option-cases (match_version (take 8 bs))) [
    | inl f ↦ inl (rw (e, f, Scan.parse_version))
    | inr (v, f) ↦ inr (inr (v, rw (e, f, Scan.parse_version), ground arith))
  ]
  | inr e ↦ inr (inl (rw (e, Scan.parse_version)))
]
