-- ===== src/Broadcast/System/Wakes.antt =====
-- The wakers that a loop over the receivers wakes.
use unsync.Prelude.{
  ℕ, ◌≡◌, refl, sym, ap, ◌∙◌, Option, none, some, List, [], ◌∷◌, ◌++◌, append_assoc,
}
use unsync.Utils.{wake}
use unsync.Broadcast.Slab.{visit}
use unsync.Broadcast.Slab.Lists.{Each}

module _ {W : Type 0} where
  -- `final` is `ws`, with more in front of it.
  abbrev pub Extends : List W → List W → Type 0
  Extends ws final = (more : List W) × (final ≡ more ++ ws)

  Extends-trans : {xs ys zs : List W} → Extends xs ys → Extends ys zs → Extends xs zs
  Extends-trans {xs} (a, e) (b, h) = (b ++ a, h ∙ ap (λ l. b ++ l) e ∙ sym (append_assoc b a xs))

  pub Extends-refl : (ws : List W) → Extends ws ws
  Extends-refl ws = ([], refl)

  pub Extends-wake : (slot : Option W) (ws : List W) → Extends ws (wake slot ws)
  unfolding wake
  Extends-wake none ws = ([], refl)
  Extends-wake (some w) ws = (w ∷ [], refl)

-- A loop that only ever adds to the wakers that it woke.
module _ {A B W : Type 0} (woken : B → List W) (f : A → B → A × B)
    (more : (a : A) (b : B) → Extends (woken b) (woken (f a b).1)) where
  visit-Extends : (xs : List (ℕ × A)) (b : B) → Extends (woken b) (woken (visit f xs b).1)
  visit-Extends [] b = Extends-refl (woken b)
  visit-Extends ((k, a) ∷ xs) b = Extends-trans (more a b) (visit-Extends xs (f a b).1)

  pub visit-Each :
      (P Q : ℕ → A → Type 0) (final : List W)
      → ((j : ℕ) (a : A) (b : B) → P j a → Extends (woken (f a b).1) final → Q j (f a b).0)
      → (xs : List (ℕ × A)) (b : B) → Each P xs
      → Extends (woken (visit f xs b).1) final
      → Each Q (visit f xs b).0
  visit-Each P Q final handled [] b p e = tt
  visit-Each P Q final handled ((k, a) ∷ xs) b (p, ps) e = (
    handled k a b p (Extends-trans (visit-Extends xs (f a b).1) e),
    visit-Each P Q final handled xs (f a b).1 ps e,
  )
