-- ===== src/OnceCell/Pointers/Stands.antt =====
-- The cell over the memory does what the one over the promise does, call by call.
use unsync.Prelude.{
  ◌≡◌, refl, sym, subst, Bool, true, false, Option, none, some, Result, ok, err, Run, returns,
}
use unsync.WaitList.Spec.{Queue, find_done, empty, start}
use unsync.WaitList.Spec
use unsync.WaitList.Refine.{Refines, Owned, Refines-borrow, borrow-ok, drop_borrowed-ok}
use unsync.WaitList.Refine.Wake.{wake_one-Reaches}
use unsync.OnceCell.{
  OnceCell, State, uninit, initializing, initialized, set_ok, set_initializing, set_initialized,
  get_state, set, set_in, leftover, drop_baton, drop_baton_in,
}
use unsync.OnceCell.Pointers.{
  Cells, set_state, cells_get, cells_set, cells_set_in, cells_leftover, cells_baton_in, cells_baton,
  unwrap,
}

module _ {T W : Type 0} where
  -- The memory holds the cell.
  pub record Stands (c : OnceCell T W) (m : Cells T W) : Type 0 where
    pub refines : Refines c.waiters m.waiters
    pub owned : Owned c.waiters m.waiters
    pub state : m.state ≡ c.state

  -- A run that ends in a memory that holds `c`, with the list borrowed or not.
  pub record Ends {A : Type 0} (a : A) (c : OnceCell T W) (b : Bool) (x : Run (Cells T W) A)
      : Type 0 where
    pub after : Cells T W
    pub run : x ≡ returns a after
    pub stands : Stands c after
    pub borrowed : after.waiters.borrowed ≡ b

  -- The run returns what is promised.
  abbrev pub Meets : {A : Type 0} → Option (A × OnceCell T W) → Run (Cells T W) A → Type 0
  Meets none x = Unit {0}
  Meets (some (a, c)) x = Ends a c false x

  pub stays :
      {A : Type 0} (a : A) (c : OnceCell T W) (m : Cells T W) {b : Bool}
      → Stands c m
      → m.waiters.borrowed ≡ b
      → Ends a c b (returns a m)
  stays a c m v h = record { after = m; run = refl; stands = v; borrowed = h }

  leftover-Ends :
      (r : Result (Unit {0}) (Unit {0}) × Queue (Unit {0}) (Unit {0}) W) (c : OnceCell T W)
      (m : Cells T W)
      → Stands (record c { waiters = r.1 }) m
      → m.waiters.borrowed ≡ false
      → Ends tt (leftover r c) false (cells_leftover r.0 m)
  unfolding leftover cells_leftover set_state
  leftover-Ends (ok u, q) c m v idle = stays tt (record c { waiters = q }) m v idle
  leftover-Ends (err u, q) c m v idle =
      stays tt (record { state = uninit; waiters = q }) (record m { state = uninit })
        (record { refines = v.refines; owned = v.owned; state = refl }) idle

  baton_in-Ends :
      (st : State T) (c : OnceCell T W) (m : Cells T W)
      → Stands c m
      → m.waiters.borrowed ≡ false
      → Ends tt (drop_baton_in st c) false (cells_baton_in st m)
  unfolding drop_baton_in cells_baton_in
  baton_in-Ends uninit c m v idle = stays tt c m v idle
  baton_in-Ends (initialized value) c m v idle = stays tt c m v idle
  baton_in-Ends initializing c m v idle =
      let woken =
        wake_one-Reaches tt c.waiters (record (m.waiters) { borrowed = true })
          (Refines-borrow true v.refines) v.owned in
      rw (borrow-ok m.waiters idle, woken.run, drop_borrowed-ok woken.after woken.borrowed)
        (leftover-Ends (Spec.wake_one tt c.waiters) c
          (record m { waiters = record (woken.after) { borrowed = false } })
          (record {
            refines = Refines-borrow false woken.refines;
            owned = woken.owned;
            state = v.state;
          })
          refl)

  pub baton-Ends :
      (c : OnceCell T W) (m : Cells T W)
      → Stands c m
      → m.waiters.borrowed ≡ false
      → Ends tt (drop_baton c) false (cells_baton m)
  unfolding drop_baton cells_baton
  baton-Ends c m v idle =
      subst (λ st. Ends tt (drop_baton_in c.state c) false (cells_baton_in st m)) (sym v.state)
        (baton_in-Ends c.state c m v idle)

  -- Once there is a value, a baton that is dropped does not touch the list, which may be borrowed.
  pub baton-initialized :
      (value : T) (m : Cells T W) → m.state ≡ initialized value → cells_baton m ≡ returns tt m
  unfolding cells_baton cells_baton_in
  baton-initialized value m h = rw h

  set_in-Ends :
      (st : State T) (value : T) (c : OnceCell T W) (m : Cells T W)
      → Stands c m
      → m.waiters.borrowed ≡ false
      → Ends (set_in st value c).0 (set_in st value c).1 false (cells_set_in st value m)
  unfolding set_in cells_set_in set_state cells_get get_state unwrap
  set_in-Ends uninit value c m v idle =
      stays (set_ok value) (record c { state = initialized value })
        (record m { state = initialized value })
        (record { refines = v.refines; owned = v.owned; state = refl }) idle
  set_in-Ends initializing value c m v idle = stays (set_initializing value) c m v idle
  set_in-Ends (initialized reference) value c m v idle =
      stays (set_initialized reference value) c m v idle

  pub set-Ends :
      (value : T) (c : OnceCell T W) (m : Cells T W)
      → Stands c m
      → m.waiters.borrowed ≡ false
      → Ends (set value c).0 (set value c).1 false (cells_set value m)
  unfolding set cells_set
  set-Ends value c m v idle =
      subst
        (λ st.
          Ends (set_in c.state value c).0 (set_in c.state value c).1 false
            (cells_set_in st value m))
        (sym v.state) (set_in-Ends c.state value c m v idle)
