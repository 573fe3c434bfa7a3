-- ===== src/Http/Header/Cuts.antt =====
-- Cuts of a read buffer whose bytes are known, for crates/net/http/src/parse.rs.
use mathlib.Core.List.{reverse, reverse-append, reverse-cons}
use hala_rs.Base.{
  ℕ, suc, ◌-◌, ◌≤◌, ◌≡◌, refl, ap, ◌∙◌, true, false, not, some, [], ◌∷◌, ◌++◌, append-nil, arith,
  ltb, if◌then◌else◌, length, length-append, take, take-length-append, drop-length-append, All,
  All-append,
}
use hala_rs.Io.ReadBuf.{Bytes, BytesMut, ReadBuf, chunk, split_to}
use hala_rs.Http.Scan
use hala_rs.Http.Scan.{is_space}
use hala_rs.Http.Scan.Laws.{skip_spaces-append, find_offset-append}
use hala_rs.Http.Header.{trim_suffix_spaces}

module _ {M : BytesMut} (b : ReadBuf M) (xs ys : Bytes) (whole : chunk b ≡ xs ++ ys) where
  room : length xs ≤ length (chunk b)
  room = omega (arith, ap length whole, length-append xs ys)

  pub split_to_front : M.as_ref (split_to b (length xs)).0 ≡ xs
  split_to_front = M.split_to_front b.bytes (length xs) room ∙ rw whole (take-length-append xs ys)

  pub split_to_rest : chunk (split_to b (length xs)).1 ≡ ys
  split_to_rest = M.split_to_rest b.bytes (length xs) room ∙ rw whole (drop-length-append xs ys)

pub skip_spaces_rest :
    {M : BytesMut} (b : ReadBuf M) (sp : Bytes) (y : ℕ) (ys : Bytes)
    → chunk b ≡ sp ++ (y ∷ ys)
    → All (λ c. is_space c ≡ true) sp
    → is_space y ≡ false
    → chunk (split_to b (Scan.skip_spaces (chunk b))).1 ≡ y ∷ ys
skip_spaces_rest b sp y ys whole spaces first =
    rw (ap Scan.skip_spaces whole ∙ skip_spaces-append sp y ys spaces first)
      (split_to_rest b sp (y ∷ ys) whole)

All-reverse {ℓ} : (P : ℕ → Type ℓ) (xs : Bytes) → All P xs → All P (reverse xs)
All-reverse P [] h = tt
All-reverse P (x ∷ xs) h =
    rw (reverse-cons x xs) (All-append P (reverse xs) (x ∷ []) (All-reverse P xs h.1) (h.0, tt))

length-reverse : (xs : Bytes) → length (reverse xs) ≡ length xs
length-reverse [] = refl
length-reverse (x ∷ xs) =
    omega
      (arith, ap length (reverse-cons x xs), length-append (reverse xs) (x ∷ []), length-reverse xs)

not_other : (xs : Bytes) → All (λ a. is_space a ≡ true) xs → All (λ a. not (is_space a) ≡ false) xs
not_other [] h = tt
not_other (x ∷ xs) h = (ap not h.0, not_other xs h.1)

suffix_spaces_lem :
    (ys : Bytes) (c : ℕ) (sp : Bytes)
    → is_space c ≡ false
    → All (λ a. is_space a ≡ true) sp
    → Scan.suffix_spaces ((ys ++ (c ∷ [])) ++ sp) ≡ some (length sp)
suffix_spaces_lem ys c sp first spaces =
    ap (Scan.find_offset (λ a. not (is_space a)))
      (reverse-append (ys ++ (c ∷ [])) sp ∙ ap (◌++◌ (reverse sp)) (reverse-append ys (c ∷ [])))
    ∙ find_offset-append _ (reverse sp) c (reverse ys) (All-reverse _ sp (not_other sp spaces))
        (ap not first)
    ∙ ap some (length-reverse sp)

zero-lt-suc : (n : ℕ) → ltb 0 (suc n) ≡ true
zero-lt-suc n = ground arith

-- `trim_suffix_spaces` takes off the spaces behind the last other byte.
pub trim_suffix_spaces_lem :
    (M : BytesMut) (buf : M.Buf) (ys : Bytes) (c : ℕ) (sp : Bytes)
    → M.as_ref buf ≡ (ys ++ (c ∷ [])) ++ sp
    → is_space c ≡ false
    → All (λ a. is_space a ≡ true) sp
    → M.as_ref (trim_suffix_spaces M buf) ≡ ys ++ (c ∷ [])
unfolding trim_suffix_spaces
trim_suffix_spaces_lem M buf ys c sp whole first spaces =
    let found = ap Scan.suffix_spaces whole ∙ suffix_spaces_lem ys c sp first spaces in
    rw (found, trim_suffix_spaces) (trimmed sp whole)
  where
    trimmed :
        (sp : Bytes)
        → M.as_ref buf ≡ (ys ++ (c ∷ [])) ++ sp
        → M.as_ref (
            if ltb 0 (length sp)
            then (M.split_off buf (length (M.as_ref buf) - length sp)).0
            else buf)
          ≡ ys ++ (c ∷ [])
    trimmed [] w = w ∙ append-nil (ys ++ (c ∷ []))
    trimmed (x ∷ sp) w =
        let xs = ys ++ (c ∷ []) in
        let cut : length (M.as_ref buf) - length (x ∷ sp) ≡ length xs =
          omega (arith, ap length w, length-append xs (x ∷ sp)) in
        rw (zero-lt-suc (length sp), cut)
          (M.split_off_kept buf (length xs) (omega (arith, ap length w, length-append xs (x ∷ sp)))
            ∙ ap (take (length xs)) w
            ∙ take-length-append xs (x ∷ sp))
