-- ===== src/OnceCell/Values.antt =====
-- What the callers of a once cell see of its value: the result of `set` and its views, `insert`, and
-- the conversions of cells.
use unsync.Prelude.{
  ◌≡◌, refl, Bool, true, false, Option, none, some, Result, ok, err, returns, panic, Cmd, ◌⊎◌, inl,
  inr,
}
use mathlib.Core.Option.{map}
use unsync.OnceCell.{
  OnceCell, State, uninit, initializing, initialized, SetResult, set_ok, set_initializing,
  set_initialized, new, get, get_state, set, set_in,
}
use unsync.WaitList.Spec.{Queue, empty}

module _ {T : Type 0} where
  -- `SetResult::ok`
  unfoldable pub set_result_ok : SetResult T → Result T T
  set_result_ok (set_ok value) = ok value
  set_result_ok (set_initializing value) = err value
  set_result_ok (set_initialized reference value) = err value

  -- `SetResult::value`
  unfoldable pub set_result_value : SetResult T → Option T
  set_result_value (set_ok value) = some value
  set_result_value (set_initializing value) = none
  set_result_value (set_initialized reference value) = some reference

  -- `SetResult::unwrap`
  unfoldable pub set_result_unwrap : {S : Type 0} → SetResult T → Cmd S T
  set_result_unwrap (set_ok value) s = returns value s
  set_result_unwrap (set_initializing value) s = panic
  set_result_unwrap (set_initialized reference value) s = panic

  -- The end of `insert`: the value that its initializer left, if it never ran, and what the cell has.
  unfoldable pub insert_reply : Option T → T → Result T (T × T)
  insert_reply (some value) reference = err (reference, value)
  insert_reply none reference = ok reference

  -- `f` is what the caller does with the reference that `get_mut` returns.
  unfoldable pub get_mut_in : (T → T) → State T → State T
  get_mut_in f uninit = uninit
  get_mut_in f initializing = initializing
  get_mut_in f (initialized value) = initialized (f value)

  unfoldable pub option_eq : (T → T → Bool) → Option T → Option T → Bool
  option_eq same none none = true
  option_eq same none (some b) = false
  option_eq same (some a) none = false
  option_eq same (some a) (some b) = same a b

  option_eq-copy :
      (copy : T → T) (same : T → T → Bool)
      → ((a : T) → same (copy a) a ≡ true)
      → (o : Option T) → option_eq same (map copy o) o ≡ true
  unfolding option_eq
  option_eq-copy copy same copies none = refl
  option_eq-copy copy same copies (some a) = copies a

  module _ {W : Type 0} where
    unfoldable pub get_mut : (T → T) → OnceCell T W → Option T × OnceCell T W
    unfolding get_mut_in get_state
    get_mut f cell = (get_state cell.state, record cell { state = get_mut_in f cell.state })

    -- `PartialEq`, on a test of the values.
    unfoldable pub cell_eq : (T → T → Bool) → OnceCell T W → OnceCell T W → Bool
    unfolding option_eq get
    cell_eq same a b = option_eq same (get a) (get b)

    unfoldable pub from : T → OnceCell T W
    unfolding empty
    from value = record { state = initialized value; waiters = empty }

    -- `copy` is the `clone` of the values' own type.
    unfoldable pub clone_of : (T → T) → Option T → OnceCell T W
    unfolding new from
    clone_of copy none = new
    clone_of copy (some value) = from (copy value)

    unfoldable pub clone : (T → T) → OnceCell T W → OnceCell T W
    unfolding get clone_of
    clone copy cell = clone_of copy (get cell)

    abbrev Reports : {S : Type 0} → T → OnceCell T W → S → SetResult T → OnceCell T W → Type 0
    Reports value cell s r after =
        (set_result_value r ≡ get after)
        × (((set_result_ok r ≡ ok value) × (set_result_unwrap r s ≡ returns value s))
            ⊎ ((set_result_ok r ≡ err value) × (set_result_unwrap r s ≡ panic) × (after ≡ cell)))

    set_in-Reports :
        {S : Type 0} (value : T) (st : State T) (q : Queue (Unit {0}) (Unit {0}) W) (s : S)
        → let cell : OnceCell T W = record { state = st; waiters = q } in
          let (r, after) = set value cell in Reports value cell s r after
    unfolding set set_in get get_state set_result_value set_result_ok set_result_unwrap
    set_in-Reports value uninit q s = (refl, inl (refl, refl))
    set_in-Reports value initializing q s = (refl, inr (refl, refl, refl))
    set_in-Reports value (initialized old) q s = (refl, inr (refl, refl, refl))

    -- What the result of a `set` shows is what the cell holds after it. If it is a success, that is
    -- the value that was given and `unwrap` returns it; if not, the value is given back, `unwrap`
    -- panics, and the cell is as it was.
    set-reports :
        {S : Type 0} (value : T) (cell : OnceCell T W) (s : S)
        → let (r, after) = set value cell in
          (set_result_value r ≡ get after)
          × (((set_result_ok r ≡ ok value) × (set_result_unwrap r s ≡ returns value s))
              ⊎ ((set_result_ok r ≡ err value) × (set_result_unwrap r s ≡ panic) × (after ≡ cell)))
    set-reports value cell s = set_in-Reports value cell.state cell.waiters s

    clone-fields :
        (copy : T → T) (st : State T) (q : Queue (Unit {0}) (Unit {0}) W)
        → let cell : OnceCell T W = record { state = st; waiters = q } in
          get (clone copy cell) ≡ map copy (get cell)
    unfolding clone get get_state clone_of from new
    clone-fields copy uninit q = refl
    clone-fields copy initializing q = refl
    clone-fields copy (initialized value) q = refl

    -- A clone shows a copy of the value that the cell shows, if it shows one.
    clone-get : (copy : T → T) (cell : OnceCell T W) → get (clone copy cell) ≡ map copy (get cell)
    clone-get copy cell = clone-fields copy cell.state cell.waiters

    get_mut-fields :
        (f : T → T) (st : State T) (q : Queue (Unit {0}) (Unit {0}) W)
        → let cell : OnceCell T W = record { state = st; waiters = q } in
          let (r, after) = get_mut f cell in
          (r ≡ get cell) × (get after ≡ map f (get cell)) × (after.waiters ≡ cell.waiters)
    unfolding get_mut get_mut_in get get_state
    get_mut-fields f uninit q = (refl, refl, refl)
    get_mut-fields f initializing q = (refl, refl, refl)
    get_mut-fields f (initialized value) q = (refl, refl, refl)

    -- A clone is equal to its cell, by any test of the values that holds of a copy and its value.
    cell_eq-clone :
        (copy : T → T) (same : T → T → Bool) (cell : OnceCell T W)
        → ((a : T) → same (copy a) a ≡ true)
        → cell_eq same (clone copy cell) cell ≡ true
    unfolding cell_eq
    cell_eq-clone copy same cell copies =
        rw (clone-get copy cell) (option_eq-copy copy same copies (get cell))

    -- What is written through `get_mut` is what the cell shows then, and nobody is woken.
    get_mut-get :
        (f : T → T) (cell : OnceCell T W)
        → let (r, after) = get_mut f cell in
          (r ≡ get cell) × (get after ≡ map f (get cell)) × (after.waiters ≡ cell.waiters)
    get_mut-get f cell = get_mut-fields f cell.state cell.waiters
