-- ===== src/Broadcast/Slab/Rows.antt =====
-- A store that keeps the promises: its items as a list, a new one at the first index behind all.
use unsync.Prelude.{ℕ, ◌+◌, ◌≤◌, ◌≡◌, refl, none, List, [], ◌∷◌, arith, ltb, if◌then◌else◌, length}
use unsync.Broadcast.Slab.{lookup, replace, remove, visit, SlabOf, IsLawful}

module _ {A : Type 0} where
  abbrev behind_all : List (ℕ × A) → ℕ
  behind_all [] = 0
  behind_all ((k, a) ∷ xs) = let n = behind_all xs in if ltb k n then n else k + 1

  lookup-behind_all : (k : ℕ) (xs : List (ℕ × A)) → behind_all xs ≤ k → lookup k xs ≡ none
  lookup-behind_all k [] h = refl
  lookup-behind_all k ((j, a) ∷ xs) h = ground (arith, lookup-behind_all k xs)

  abbrev pub rows : SlabOf A
  rows = record {
    Slab = List (ℕ × A);
    new = [];
    insert = λ a xs. (behind_all xs, (behind_all xs, a) ∷ xs);
    get = lookup;
    put = replace;
    try_remove = remove;
    len = length;
    items = λ xs. xs;
    iter_mut = visit;
  }

  pub rows-IsLawful : IsLawful rows
  rows-IsLawful = record {
    items-new = refl;
    items-insert = λ a xs. record {
      before = [];
      behind = xs;
      old = refl;
      whole = refl;
      free = lookup-behind_all (behind_all xs) xs (omega arith);
    };
    get-items = λ k xs. refl;
    items-put = λ k a xs. refl;
    items-try_remove = λ k xs. refl;
    len-items = λ xs. refl;
    items-iter_mut = λ f xs b. refl;
    iter_mut-visit = λ f xs b. refl;
  }
