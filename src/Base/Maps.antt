-- ===== src/Base/Maps.antt =====
-- Maps as association lists: the standard `HashMap` and the concurrent `DashMap`, one call at a time.
use mathlib.Core.Path.{◌≡◌, refl, ap, sym, ◌∙◌}
use mathlib.Core.Logic.{◌↔◌}
use mathlib.Core.Bool.{Bool, true, false}
use mathlib.Core.Option.{Option, none, some}
use mathlib.Core.List.{List, [], ◌∷◌}
use native.Mathlib.Omega.{arith}
use Prim.Native.Nat.{ℕ}
use hala_rs.Base.Tests.{◌==◌, ==_iff, if◌then◌else◌}

-- `Eq` of the standard library.
pub record Eq (K : Type 0) : Type 0 where
  pub beq : K → K → Bool
  pub beq_iff : (a b : K) → (beq a b ≡ true) ↔ (a ≡ b)

instance unfoldable pub Nat-Eq : Eq ℕ
Nat-Eq = record { beq = ◌==◌; beq_iff = ==_iff }

module _ {K V : Type 0} ⦃eq : Eq K⦄ where
  unfoldable pub lookup : K → List (K × V) → Option V
  lookup k [] = none
  lookup k ((j, v) ∷ m) = if eq.beq j k then some v else lookup k m

  -- Every binding of a key goes, so a key that was inserted once is gone.
  unfoldable pub remove : K → List (K × V) → List (K × V)
  remove k [] = []
  remove k ((j, v) ∷ m) = let rest = remove k m in if eq.beq j k then rest else (j, v) ∷ rest

  unfoldable pub insert : K → V → List (K × V) → List (K × V)
  unfolding remove
  insert k v m = (k, v) ∷ remove k m

  pub lookup-remove :
      (k j : K) (m : List (K × V))
      → lookup j (remove k m) ≡ (if eq.beq k j then none else lookup j m)
  unfolding lookup remove
  lookup-remove k j [] = ground arith
  lookup-remove k j ((i, v) ∷ m) =
      ground (arith, eq.beq_iff i k, eq.beq_iff k j, eq.beq_iff i j, lookup-remove k j m)

  pub lookup-insert :
      (k j : K) (v : V) (m : List (K × V))
      → lookup j (insert k v m) ≡ (if eq.beq k j then some v else lookup j m)
  unfolding insert lookup
  lookup-insert k j v m = ground (arith, lookup-remove k j m)

abbrev pub same_text : List ℕ → List ℕ → Bool
same_text [] [] = true
same_text (x ∷ xs) (y ∷ ys) = let rest = same_text xs ys in if x == y then rest else false
same_text _ _ = false

pub same_text_self : (xs : List ℕ) → same_text xs xs ≡ true
same_text_self [] = refl
same_text_self (x ∷ xs) = ground (arith, same_text_self xs)

pub same_text-eq : (xs ys : List ℕ) → same_text xs ys ≡ true → xs ≡ ys
same_text-eq [] [] e = refl
same_text-eq (x ∷ xs) (y ∷ ys) e = ground (arith, e, same_text-eq xs ys)
same_text-eq [] (y ∷ ys) e = cc
same_text-eq (x ∷ xs) [] e = cc

instance unfoldable pub Text-Eq : Eq (List ℕ)
Text-Eq = record {
  beq = same_text;
  beq_iff =
      λ xs ys. (same_text-eq xs ys, λ p. ap (λ t. same_text xs t) (sym p) ∙ same_text_self xs);
}
