-- ===== src/Broadcast/Slab/Lists.antt =====
-- Lists of items by their index.
use unsync.Prelude.{
  ℕ, ◌+◌, ◌≡◌, ◌≢◌, refl, sym, ap, subst, ◌∙◌, false, Option, none, some, is_some, List, [], ◌∷◌,
  ◌++◌, arith, inl, inr, Bool-cases, ◌==◌, length, length-append,
}
use unsync.Broadcast.Slab.{lookup, replace, remove, Inserted}

module _ {A : Type 0} where
  -- `P` holds of every item, with its index.
  abbrev pub Each : (ℕ → A → Type 0) → List (ℕ × A) → Type 0
  Each P [] = Unit {0}
  Each P ((k, a) ∷ xs) = P k a × Each P xs

  abbrev pub IsDistinct : List (ℕ × A) → Type 0
  IsDistinct [] = Unit {0}
  IsDistinct ((k, a) ∷ xs) = (lookup k xs ≡ none) × IsDistinct xs

  pub Each-lookup :
      (P : ℕ → A → Type 0) (k : ℕ) (a : A) (xs : List (ℕ × A))
      → lookup k xs ≡ some a
      → Each P xs
      → P k a
  Each-lookup P k a [] h e = cc
  Each-lookup P k a ((j, b) ∷ xs) h (p, e) = elim (Bool-cases (k == j)) [
    | inl here ↦
        let same : k ≡ j = ground arith in let item : b ≡ a = ground arith in rw (same, sym item) p
    | inr other ↦ Each-lookup P k a xs (rw other at h) e
  ]

  -- A change of `P` at all indices that are in the list.
  pub Each-map :
      (P Q : ℕ → A → Type 0) (xs : List (ℕ × A))
      → ((j : ℕ) (a : A) → lookup j xs ≢ none → P j a → Q j a)
      → Each P xs
      → Each Q xs
  Each-map P Q [] f e = tt
  Each-map P Q ((k, a) ∷ xs) f (p, e) =
      (f k a (ground arith) p, Each-map P Q xs (λ j b h. f j b (ground arith)) e)

  -- An index that is there is not one that is free.
  pub other-than :
      (k i : ℕ) (xs : List (ℕ × A)) → lookup k xs ≡ none → lookup i xs ≢ none → (k == i) ≡ false
  other-than k i xs gone there = elim (Bool-cases (k == i)) [
    | inl here ↦
        let same : k ≡ i = ground arith in absurd (there (sym (ap (λ j. lookup j xs) same) ∙ gone))
    | inr other ↦ other
  ]

  pub Each-replace :
      (P Q : ℕ → A → Type 0) (k : ℕ) (b : A) (xs : List (ℕ × A))
      → IsDistinct xs
      → ((j : ℕ) (a : A) → (k == j) ≡ false → P j a → Q j a)
      → Q k b
      → Each P xs
      → Each Q (replace k b xs)
  Each-replace P Q k b [] d f q e = tt
  Each-replace P Q k b ((j, a) ∷ xs) (new, d) f q (p, e) = elim (Bool-cases (k == j)) [
    | inl here ↦
        let same : k ≡ j = ground arith in
        let gone : lookup k xs ≡ none = rw same new in
        rw here (
          subst (λ i. Q i b) same q,
          Each-map P Q xs (λ i c h x. f i c (other-than k i xs gone h) x) e,
        )
    | inr other ↦ rw other (f j a other p, Each-replace P Q k b xs d f q e)
  ]

  pub Each-remove :
      (P Q : ℕ → A → Type 0) (k : ℕ) (xs : List (ℕ × A))
      → IsDistinct xs
      → ((j : ℕ) (a : A) → (k == j) ≡ false → P j a → Q j a)
      → Each P xs
      → Each Q (remove k xs)
  Each-remove P Q k [] d f e = tt
  Each-remove P Q k ((j, a) ∷ xs) (new, d) f (p, e) = elim (Bool-cases (k == j)) [
    | inl here ↦
        let same : k ≡ j = ground arith in
        let gone : lookup k xs ≡ none = rw same new in
        rw here (Each-map P Q xs (λ i c h x. f i c (other-than k i xs gone h) x) e)
    | inr other ↦ rw other (f j a other p, Each-remove P Q k xs d f e)
  ]

  pub Each-append :
      (P : ℕ → A → Type 0) (xs ys : List (ℕ × A)) → Each P xs → Each P ys → Each P (xs ++ ys)
  Each-append P [] ys p q = q
  Each-append P (x ∷ xs) ys (p, ps) q = (p, Each-append P xs ys ps q)

  pub Each-split :
      (P : ℕ → A → Type 0) (xs ys : List (ℕ × A)) → Each P (xs ++ ys) → Each P xs × Each P ys
  Each-split P [] ys p = (tt, p)
  Each-split P (x ∷ xs) ys (p, ps) = let (q, r) = Each-split P xs ys ps in ((p, q), r)

  pub Each-Inserted :
      (P Q : ℕ → A → Type 0) (k : ℕ) (b : A) (xs ys : List (ℕ × A))
      → Inserted k b xs ys
      → ((j : ℕ) (a : A) → (k == j) ≡ false → P j a → Q j a)
      → Q k b
      → Each P xs
      → Each Q ys
  Each-Inserted P Q k b xs ys i f q e =
      let kept : Each Q xs = Each-map P Q xs (λ j a h x. f j a (other-than k j xs i.free h) x) e in
      let (front, back) = Each-split Q i.before i.behind (rw i.old at kept) in
      rw i.whole (Each-append Q i.before ((k, b) ∷ i.behind) front (q, back))

  lookup-append :
      (k : ℕ) (xs ys : List (ℕ × A)) → lookup k xs ≡ none → lookup k (xs ++ ys) ≡ lookup k ys
  lookup-append k [] ys h = refl
  lookup-append k ((j, a) ∷ xs) ys h = ground (arith, lookup-append k xs ys)

  -- Distinct lists have no index of the one in the other.
  lookup-none-append :
      (k : ℕ) (xs ys : List (ℕ × A))
      → lookup k (xs ++ ys) ≡ none
      → (lookup k xs ≡ none) × (lookup k ys ≡ none)
  lookup-none-append k [] ys h = (refl, h)
  lookup-none-append k ((j, a) ∷ xs) ys h = ground (arith, lookup-none-append k xs ys)

  IsDistinct-middle :
      (k : ℕ) (b : A) (xs ys : List (ℕ × A))
      → IsDistinct (xs ++ ys)
      → lookup k (xs ++ ys) ≡ none
      → IsDistinct (xs ++ ((k, b) ∷ ys))
  IsDistinct-middle k b [] ys d h = (h, d)
  IsDistinct-middle k b ((j, a) ∷ xs) ys (new, d) h =
      let (apart, rest) = lookup-none-append j xs ys new in
      (
        rw (lookup-append j xs ((k, b) ∷ ys) apart) (ground (arith, rest)),
        IsDistinct-middle k b xs ys d (ground arith),
      )

  pub IsDistinct-Inserted :
      (k : ℕ) (b : A) (xs ys : List (ℕ × A)) → Inserted k b xs ys → IsDistinct xs → IsDistinct ys
  IsDistinct-Inserted k b xs ys i d =
      rw i.whole (IsDistinct-middle k b i.before i.behind (rw i.old at d) (rw i.old at i.free))

  pub length-Inserted :
      (k : ℕ) (b : A) (xs ys : List (ℕ × A)) → Inserted k b xs ys → length ys ≡ length xs + 1
  length-Inserted k b xs ys i =
      rw (i.whole, i.old)
        (omega (arith, length-append i.before ((k, b) ∷ i.behind), length-append i.before i.behind))

  pub length-replace : (k : ℕ) (b : A) (xs : List (ℕ × A)) → length (replace k b xs) ≡ length xs
  length-replace k b [] = refl
  length-replace k b ((j, a) ∷ xs) = ground (arith, length-replace k b xs)

  pub length-remove :
      (k : ℕ) (xs : List (ℕ × A)) → lookup k xs ≢ none → length (remove k xs) + 1 ≡ length xs
  length-remove k [] h = absurd (h refl)
  length-remove k ((j, a) ∷ xs) h = elim (Bool-cases (k == j)) [
    | inl here ↦ rw here (omega arith)
    | inr other ↦ rw other (omega (arith, length-remove k xs (rw other at h)))
  ]

  pub lookup-replace :
      (i k : ℕ) (b : A) (xs : List (ℕ × A))
      → is_some (lookup i (replace k b xs)) ≡ is_some (lookup i xs)
  lookup-replace i k b [] = refl
  lookup-replace i k b ((j, a) ∷ xs) = ground (arith, lookup-replace i k b xs)

  pub none-is_some : (o o' : Option A) → is_some o ≡ is_some o' → o' ≡ none → o ≡ none
  none-is_some o o' e h = ground (arith)

  pub IsDistinct-replace :
      (k : ℕ) (b : A) (xs : List (ℕ × A)) → IsDistinct xs → IsDistinct (replace k b xs)
  IsDistinct-replace k b [] d = tt
  IsDistinct-replace k b ((j, a) ∷ xs) (new, d) = elim (Bool-cases (k == j)) [
    | inl here ↦ rw here (new, d)
    | inr other ↦
        rw other (none-is_some _ _ (lookup-replace j k b xs) new, IsDistinct-replace k b xs d)
  ]

  lookup-remove-none :
      (i k : ℕ) (xs : List (ℕ × A)) → lookup i xs ≡ none → lookup i (remove k xs) ≡ none
  lookup-remove-none i k [] h = refl
  lookup-remove-none i k ((j, a) ∷ xs) h = ground (arith, lookup-remove-none i k xs)

  pub IsDistinct-remove : (k : ℕ) (xs : List (ℕ × A)) → IsDistinct xs → IsDistinct (remove k xs)
  IsDistinct-remove k [] d = tt
  IsDistinct-remove k ((j, a) ∷ xs) (new, d) = elim (Bool-cases (k == j)) [
    | inl here ↦ rw here d
    | inr other ↦ rw other (lookup-remove-none j k xs new, IsDistinct-remove k xs d)
  ]
