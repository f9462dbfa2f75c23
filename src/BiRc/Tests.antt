-- ===== src/BiRc/Tests.antt =====
-- The two references of a `BiRc` at concrete calls.
use unsync.Prelude.{ℕ, ◌≡◌, refl, true, false, none, some, List, [], ◌∷◌, returns}
use unsync.Prelude.Histories.{calls, promises}
use unsync.BiRc.{World, new}
use unsync.BiRc.Count.{
  Call, gets, writes, drops, first, second, Reply, got, done, promised, call, of_fields,
  calls-shares,
}

-- The first one writes and goes, the second sees it and goes too.
abbrev story : List (Call ℕ)
story = gets second ∷ writes first 2 ∷ drops first ∷ gets second ∷ drops second ∷ []

abbrev told : List (Reply ℕ)
told = got 1 true ∷ done ∷ done ∷ got 2 false ∷ done ∷ []

story-told : promises promised story (of_fields 1 true true) ≡ some (told, of_fields 2 false false)
unfolding promises promised
story-told = refl

calls-shares_example :
    (w : World ℕ ℕ) × (calls call story (new 1) ≡ returns told w) × (w.memory ≡ none)
calls-shares_example = calls-shares 1 story story-told
