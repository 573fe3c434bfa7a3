-- ===== src/Base/Sets.antt =====
-- `HashSet<u64>` of the standard library as a list without order.
use Prim.Native.Nat.{ℕ}
use mathlib.Core.Path.{◌≡◌, refl}
use mathlib.Core.Bool.{Bool, true, false}
use mathlib.Core.List.{List, [], ◌∷◌, ◌++◌}
use native.Mathlib.Omega.{arith}
use hala_rs.Base.Tests.{◌==◌, if◌then◌else◌}
use hala_rs.Base.Lists.{All}

abbrev pub contains : ℕ → List ℕ → Bool
contains a [] = false
contains a (x ∷ xs) = let rest = contains a xs in if x == a then true else rest

unfoldable pub add : ℕ → List ℕ → List ℕ
add a xs = if contains a xs then xs else a ∷ xs

unfoldable pub discard : ℕ → List ℕ → List ℕ
discard a [] = []
discard a (x ∷ xs) = let rest = discard a xs in if x == a then rest else x ∷ rest

-- No member twice.
abbrev pub Nodup : List ℕ → Type 0
Nodup [] = Unit
Nodup (x ∷ xs) = (contains x xs ≡ false) × Nodup xs

pub contains-append :
    (a : ℕ) (xs ys : List ℕ)
    → contains a (xs ++ ys) ≡ (if contains a xs then true else contains a ys)
contains-append a [] ys = refl
contains-append a (x ∷ xs) ys = ground (arith, contains-append a xs ys)

pub contains-add :
    (a b : ℕ) (xs : List ℕ) → contains b (add a xs) ≡ (if a == b then true else contains b xs)
unfolding add
contains-add a b xs = ground arith

pub contains-discard :
    (a b : ℕ) (xs : List ℕ) → contains b (discard a xs) ≡ (if a == b then false else contains b xs)
unfolding discard
contains-discard a b [] = ground arith
contains-discard a b (x ∷ xs) = ground (arith, contains-discard a b xs)

pub Nodup-snoc : (xs : List ℕ) (a : ℕ) → Nodup xs → contains a xs ≡ false → Nodup (xs ++ (a ∷ []))
Nodup-snoc [] a h g = (refl, tt)
Nodup-snoc (x ∷ xs) a h g =
    (ground (arith, h.0, g, contains-append x xs (a ∷ [])), Nodup-snoc xs a h.1 (ground (arith, g)))

pub All-discard {κ} : (P : ℕ → Type κ) (a : ℕ) (xs : List ℕ) → All P xs → All P (discard a xs)
unfolding discard
All-discard P a [] h = h
All-discard P a (x ∷ xs) h =
    elim (x == a) as (λ t. All P (if t then discard a xs else x ∷ discard a xs)) [
      | true ↦ All-discard P a xs h.1
      | false ↦ (h.0, All-discard P a xs h.1)
    ]
