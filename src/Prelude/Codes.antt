-- ===== src/Prelude/Codes.antt =====
-- The bytes of a message of the source, as a C string holds them before the terminating 0.
use Prim.Native.Char.{code}
use Prim.Native.Nat.{ℕ}
use Prim.Native.String.{String}
use mathlib.Core.Path.{◌≡◌, refl, ap, subst}
use mathlib.Core.Logic.{inl, inr}
use mathlib.Core.Bool.{Bool, true, false, ◌&&◌}
use mathlib.Core.List.{List, [], ◌∷◌}
use native.Mathlib.Omega.{arith}
use zenix.Prelude.Tests.{◌==◌, ==_iff, ==_refl, Bool-cases}

abbrev pub codes : String → List ℕ
codes String.[] = []
codes (String.◌∷◌ c rest) = code c ∷ codes rest

-- `strcmp(s, t) == 0`
abbrev pub same_text : List ℕ → List ℕ → Bool
same_text [] [] = true
same_text [] (y ∷ ys) = false
same_text (x ∷ xs) [] = false
same_text (x ∷ xs) (y ∷ ys) = (x == y) && same_text xs ys

pub same_text_refl : (xs : List ℕ) → same_text xs xs ≡ true
same_text_refl [] = refl
same_text_refl (x ∷ xs) = rw (==_refl x) (same_text_refl xs)

pub same_text-eq : (xs ys : List ℕ) → same_text xs ys ≡ true → xs ≡ ys
same_text-eq [] [] h = refl
same_text-eq [] (y ∷ ys) h = absurd (ground (arith, h))
same_text-eq (x ∷ xs) [] h = absurd (ground (arith, h))
same_text-eq (x ∷ xs) (y ∷ ys) h = elim (Bool-cases (x == y)) [
  | inl e ↦
      let rest : same_text xs ys ≡ true = subst (λ b. (b && same_text xs ys) ≡ true) e h in
      rw ((==_iff x y).0 e) (ap (◌∷◌ y) (same_text-eq xs ys rest))
  | inr e ↦ absurd (ground (arith, subst (λ b. (b && same_text xs ys) ≡ true) e h))
]
