-- ===== src/Prelude/Lists.antt =====
-- Lists with lengths in the native numbers.
use Prim.Native.Nat.{ℕ, suc, ◌+◌}
use mathlib.Core.Path.{◌≡◌, sym}
use mathlib.Core.List.{List, [], ◌∷◌, ◌++◌, reverse, reverse-cons, append_assoc}
use native.Mathlib.Omega.{arith}

module _ {ℓ} {A : Type ℓ} where
  abbrev pub length : List A → ℕ
  length [] = 0
  length (x ∷ xs) = suc (length xs)

  pub length-append : (xs ys : List A) → length (xs ++ ys) ≡ length xs + length ys
  length-append [] ys = omega arith
  length-append (x ∷ xs) ys = omega (arith, length-append xs ys)

-- What a list grows by at its front, one by one.
pub reverse-cons-append {ℓ} :
    {A : Type ℓ} (a : A) (xs ys : List A) → reverse xs ++ (a ∷ ys) ≡ reverse (a ∷ xs) ++ ys
reverse-cons-append a xs ys = rw reverse-cons (sym (append_assoc (reverse xs) (a ∷ []) ys))

-- Every element satisfies `P`.
abbrev pub All {ℓ κ} : {A : Type ℓ} → (A → Type κ) → List A → Type κ
All P [] = Unit
All P (x ∷ xs) = P x × All P xs
