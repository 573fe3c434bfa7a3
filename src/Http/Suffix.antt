-- ===== src/Http/Suffix.antt =====
-- What the parsers of crates/net/http/src/parse.rs leave of a buffer: a suffix of it.
use hala_rs.Base.{
  ℕ, ◌+◌, ◌≤◌, ◌≡◌, refl, sym, ap, ◌∙◌, [], ◌++◌, append_assoc, arith, length, length-append,
}
use hala_rs.Io.ReadBuf.{Bytes}

-- `ys` is what is left of `xs` when at least `k` bytes are taken off its front.
abbrev pub Left : ℕ → Bytes → Bytes → Type 0
Left k xs ys = (eaten : Bytes) × (xs ≡ eaten ++ ys) × (k ≤ length eaten)

pub Left-refl : (xs : Bytes) → Left 0 xs xs
Left-refl xs = ([], refl, omega arith)

pub Left-trans : {i j : ℕ} {xs ys zs : Bytes} → Left i xs ys → Left j ys zs → Left (i + j) xs zs
Left-trans {zs = zs} (a, p, h) (b, q, k) =
    (a ++ b, p ∙ ap (◌++◌ a) q ∙ sym (append_assoc a b zs), omega (arith, length-append a b))

pub Left-weaken : {i j : ℕ} {xs ys : Bytes} → i ≤ j → Left j xs ys → Left i xs ys
Left-weaken h (a, p, k) = (a, p, omega arith)

pub length-Left : {k : ℕ} (xs ys : Bytes) → Left k xs ys → length ys + k ≤ length xs
length-Left xs ys (a, p, k) = omega (arith, ap length p, length-append a ys)

pub Left-append : {k : ℕ} {xs ys : Bytes} (zs : Bytes) → Left k xs ys → Left k (xs ++ zs) (ys ++ zs)
Left-append {ys = ys} zs (a, p, k) = (a, ap (λ l. l ++ zs) p ∙ append_assoc a ys zs, k)
