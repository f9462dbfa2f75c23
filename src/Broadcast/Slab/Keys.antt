-- ===== src/Broadcast/Slab/Keys.antt =====
-- The indices of a list of items, through each operation.
use unsync.Prelude.{
  ℕ, suc, ◌≡◌, refl, ap, true, false, none, some, is_some, List, [], ◌∷◌, ◌++◌, arith, inl, inr,
  Bool-cases, ◌==◌, if◌then◌else◌, length,
}
use unsync.Broadcast.Slab.{lookup, remove, visit, Inserted}
use unsync.Broadcast.Slab.Lists.{Each, Each-map, IsDistinct, none-is_some, other-than}

module _ {A : Type 0} where
  -- Each item of a distinct list is the one at its index.
  pub Each-own : (xs : List (ℕ × A)) → IsDistinct xs → Each (λ j a. lookup j xs ≡ some a) xs
  Each-own [] d = tt
  Each-own ((k, a) ∷ xs) (new, d) = (
    ground arith,
    Each-map (λ j b. lookup j xs ≡ some b) (λ j b. lookup j ((k, a) ∷ xs) ≡ some b) xs
        (λ j b h e. let other = other-than k j xs new h in ground arith) (Each-own xs d),
  )

  pub Each-both :
      (P Q : ℕ → A → Type 0) (xs : List (ℕ × A))
      → Each P xs
      → Each Q xs
      → Each (λ j a. P j a × Q j a) xs
  Each-both P Q [] p q = tt
  Each-both P Q (x ∷ xs) (p, ps) (q, qs) = ((p, q), Each-both P Q xs ps qs)

  lookup-middle :
      (i k : ℕ) (b : A) (xs ys : List (ℕ × A))
      → lookup k (xs ++ ys) ≡ none
      → is_some (lookup i (xs ++ ((k, b) ∷ ys)))
        ≡ (if k == i then true else is_some (lookup i (xs ++ ys)))
  lookup-middle i k b [] ys h = ground arith
  lookup-middle i k b ((j, a) ∷ xs) ys h = ground (arith, lookup-middle i k b xs ys)

  pub lookup-Inserted :
      (i k : ℕ) (b : A) (xs ys : List (ℕ × A))
      → Inserted k b xs ys
      → is_some (lookup i ys) ≡ (if k == i then true else is_some (lookup i xs))
  lookup-Inserted i k b xs ys v =
      rw (v.whole, v.old) (lookup-middle i k b v.before v.behind (rw v.old at v.free))

  pub lookup-remove :
      (i k : ℕ) (xs : List (ℕ × A))
      → IsDistinct xs
      → is_some (lookup i (remove k xs)) ≡ (if k == i then false else is_some (lookup i xs))
  lookup-remove i k [] d = ground arith
  lookup-remove i k ((j, a) ∷ xs) (new, d) = elim (Bool-cases (k == j)) [
    | inl here ↦
        let same : k ≡ j = ground arith in
        let gone : lookup k xs ≡ none = rw same new in
        rw here (elim (Bool-cases (k == i)) [
          | inl it ↦ let it' : k ≡ i = ground arith in rw it (ap is_some (rw it' at gone))
          | inr not_it ↦ let apart : (i == j) ≡ false = ground arith in simp (not_it, apart)
        ])
    | inr other ↦ ground (arith, lookup-remove i k xs)
  ]

  module _ {B : Type 0} (f : A → B → A × B) where
    pub lookup-visit :
        (i : ℕ) (xs : List (ℕ × A)) (b : B)
        → is_some (lookup i (visit f xs b).0) ≡ is_some (lookup i xs)
    lookup-visit i [] b = refl
    lookup-visit i ((k, a) ∷ xs) b = ground (arith, lookup-visit i xs (f a b).1)

    pub length-visit : (xs : List (ℕ × A)) (b : B) → length (visit f xs b).0 ≡ length xs
    length-visit [] b = refl
    length-visit ((k, a) ∷ xs) b = ap suc (length-visit xs (f a b).1)

    pub IsDistinct-visit : (xs : List (ℕ × A)) (b : B) → IsDistinct xs → IsDistinct (visit f xs b).0
    IsDistinct-visit [] b d = tt
    IsDistinct-visit ((k, a) ∷ xs) b (new, d) =
        (none-is_some _ _ (lookup-visit k xs (f a b).1) new, IsDistinct-visit xs (f a b).1 d)
