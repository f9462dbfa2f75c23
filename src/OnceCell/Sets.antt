-- ===== src/OnceCell/Sets.antt =====
-- `OnceCell::set`, time and again: the cell is written once.
use mathlib.Core.List.{map}
use unsync.Prelude.{◌≡◌, refl, ap, some, List, [], ◌∷◌, ok, err}
use unsync.WaitList.Spec.{Queue}
use unsync.OnceCell.{
  OnceCell, State, uninit, initialized, SetResult, set_initialized, get, get_state, set, set_in,
}
use unsync.OnceCell.Values.{set_result_ok, set_result_value}

module _ {T : Type 0} where
  set_result_ok-refused :
      (first : T) (values : List T)
      → map set_result_ok (map (set_initialized first) values) ≡ map err values
  unfolding set_result_ok
  set_result_ok-refused first [] = refl
  set_result_ok-refused first (value ∷ values) =
      ap (◌∷◌ (err value)) (set_result_ok-refused first values)

  set_result_value-refused :
      (first : T) (values : List T)
      → map set_result_value (map (set_initialized first) values) ≡ map (λ v. some first) values
  unfolding set_result_value
  set_result_value-refused first [] = refl
  set_result_value-refused first (value ∷ values) =
      ap (◌∷◌ (some first)) (set_result_value-refused first values)

module _ {T W : Type 0} where
  -- The results of the calls, and the cell after them.
  abbrev pub set_all : List T → OnceCell T W → List (SetResult T) × OnceCell T W
  set_all [] cell = ([], cell)
  set_all (value ∷ values) cell =
      let (r, next) = set value cell in let (rs, after) = set_all values next in (r ∷ rs, after)

  abbrev in_state : State T → Queue (Unit {0}) (Unit {0}) W → OnceCell T W
  in_state st q = record { state = st; waiters = q }

  set_all-initialized :
      (first : T) (q : Queue (Unit {0}) (Unit {0}) W) (values : List T)
      → set_all values (in_state (initialized first) q)
        ≡ (map (set_initialized first) values, in_state (initialized first) q)
  unfolding set set_in
  set_all-initialized first q [] = refl
  set_all-initialized first q (value ∷ values) = rw (set_all-initialized first q values) refl

  first-fields :
      (first : T) (values : List T) (q : Queue (Unit {0}) (Unit {0}) W)
      → let (rs, after) = set_all (first ∷ values) (in_state uninit q) in
        (map set_result_ok rs ≡ ok first ∷ map err values)
        × (map set_result_value rs ≡ map (λ v. some first) (first ∷ values))
        × (get after ≡ some first)
        × (after.waiters ≡ q)
  unfolding set set_in get get_state set_result_ok set_result_value
  first-fields first values q = rw (set_all-initialized first q values) (
    ap (◌∷◌ (ok first)) (set_result_ok-refused first values),
    ap (◌∷◌ (some first)) (set_result_value-refused first values),
    refl,
    refl,
  )

  -- Of any calls of `set` one after the other, on a cell that is `Uninit` at first, the first one
  -- succeeds and all others give their values back; the value of each result, where it refers to the
  -- cell, is the first one; the cell shows that value after them all, and nobody is woken.
  pub set_all-first :
      (first : T) (values : List T) (cell : OnceCell T W)
      → cell.state ≡ uninit
      → let (rs, after) = set_all (first ∷ values) cell in
        (map set_result_ok rs ≡ ok first ∷ map err values)
        × (map set_result_value rs ≡ map (λ v. some first) (first ∷ values))
        × (get after ≡ some first)
        × (after.waiters ≡ cell.waiters)
  set_all-first first values cell e = rw e (first-fields first values cell.waiters)
