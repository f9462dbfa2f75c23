-- ===== src/OnceCell/Pointers.antt =====
-- src/once_cell.rs over the pointers of its wait list, with every borrow of it.
--
-- The cell of OnceCell.antt stands on the promise of the wait list; this one on its memory. A loop
-- that runs out of fuel is a fault. A baton that is not forgotten is dropped where the code drops
-- it, also where the wait list is borrowed.
pub mod Stands
pub mod Polls
pub mod Ended
pub mod Calls
mod Tests
use unsync.Prelude.{
  Bool, ℕ, zero, suc, Option, none, some, Result, ok, err, Poll, ready, pending, Run, returns,
  panic, abort, fault, Cmd, and_then, pure, ◌>>=◌, ◌>>◌,
}
use unsync.WaitList.{
  new as new_list, Ptr, input, output, World, borrow, drop_borrowed, wake_one, wait_start,
  wait_poll, wait_drop,
}
use unsync.WaitList
use unsync.OnceCell.{
  State, uninit, initializing, initialized, SetResult, set_ok, set_initializing, set_initialized,
  Progress, waiting, leading, finished, get_state,
}

pub record Cells (T W : Type 0) : Type 0 where
  pub state : State T
  pub waiters : World (Unit {0}) (Unit {0}) W

module _ {T W : Type 0} where
  abbrev pub in_cells :
      {A : Type 0} → Cells T W → Run (World (Unit {0}) (Unit {0}) W) A → Run (Cells T W) A
  in_cells s (returns a m) = returns a (record s { waiters = m })
  in_cells s panic = panic
  in_cells s abort = abort
  in_cells s fault = fault

  -- A step of the wait list.
  abbrev pub on_waiters : {A : Type 0} → Cmd (World (Unit {0}) (Unit {0}) W) A → Cmd (Cells T W) A
  on_waiters m s = in_cells s (m s.waiters)

  unfoldable pub cells_new : Cells T W
  unfolding new_list
  cells_new = record { state = uninit; waiters = new_list }

  unfoldable pub set_state : State T → Cmd (Cells T W) (Unit {0})
  set_state st s = returns tt (record s { state = st })

  unfoldable pub cells_get : Cmd (Cells T W) (Option T)
  unfolding get_state
  cells_get s = returns (get_state s.state) s

  -- `get().unwrap()`
  unfoldable pub unwrap : Option T → Cmd (Cells T W) T
  unwrap none s = panic
  unwrap (some value) s = returns value s

  unfoldable pub cells_set_in : State T → T → Cmd (Cells T W) (SetResult T)
  unfolding set_state cells_get unwrap
  cells_set_in uninit value = do
    set_state (initialized value)
    found ← cells_get
    reference ← unwrap found
    pure (set_ok reference)
  cells_set_in initializing value = pure (set_initializing value)
  cells_set_in (initialized reference) value = pure (set_initialized reference value)

  unfoldable pub cells_set : T → Cmd (Cells T W) (SetResult T)
  unfolding cells_set_in
  cells_set value s = cells_set_in s.state value s

  -- `Drop` of a baton. The borrow ends with the statement; a baton that comes back is forgotten.
  unfoldable pub cells_leftover : Result (Unit {0}) (Unit {0}) → Cmd (Cells T W) (Unit {0})
  unfolding set_state
  cells_leftover (ok i) = pure tt
  cells_leftover (err baton) = set_state uninit

  unfoldable pub cells_baton_in : State T → Cmd (Cells T W) (Unit {0})
  unfolding borrow wake_one drop_borrowed cells_leftover
  cells_baton_in uninit = pure tt
  cells_baton_in initializing = do
    on_waiters borrow
    leftover ← on_waiters (wake_one tt)
    on_waiters drop_borrowed
    cells_leftover leftover
  cells_baton_in (initialized value) = pure tt

  unfoldable pub cells_baton : Cmd (Cells T W) (Unit {0})
  unfolding cells_baton_in
  cells_baton s = cells_baton_in s.state s

  -- The start of `get_or_try_init`. The first poll of the future `wait` is not ready; if it were,
  -- this would be a fault.
  unfoldable pub cells_begun : Poll (Unit {0}) → Cmd (Cells T W) (Progress T)
  cells_begun pending = pure waiting
  cells_begun (ready u) = λ s. fault

  unfoldable pub cells_start_in : (W → W → Bool) → State T → Ptr → W → Cmd (Cells T W) (Progress T)
  unfolding set_state wait_start cells_begun
  cells_start_in will_wake uninit p cx = do set_state initializing; pure leading
  cells_start_in will_wake initializing p cx = do
    begun ← on_waiters (wait_start will_wake p tt cx)
    cells_begun begun
  cells_start_in will_wake (initialized value) p cx = pure (finished value)

  unfoldable pub cells_start : (W → W → Bool) → Ptr → W → Cmd (Cells T W) (Progress T)
  unfolding cells_start_in
  cells_start will_wake p cx s = cells_start_in will_wake s.state p cx s

  -- With a baton: it is forgotten, or dropped as the future returns.
  unfoldable pub cells_handed : State T → Cmd (Cells T W) (Progress T)
  unfolding cells_baton
  cells_handed uninit = λ s. panic
  cells_handed initializing = pure leading
  cells_handed (initialized value) = do cells_baton; pure (finished value)

  unfoldable pub cells_polled : Poll (Unit {0}) → Cmd (Cells T W) (Progress T)
  unfolding cells_handed
  cells_polled pending = pure waiting
  cells_polled (ready baton) = λ s. cells_handed s.state s

  unfoldable pub cells_poll : (W → W → Bool) → Ptr → W → Cmd (Cells T W) (Progress T)
  unfolding wait_poll cells_polled
  cells_poll will_wake p cx = do polled ← on_waiters (wait_poll will_wake p cx); cells_polled polled

  -- `while waiters.wake_one(..).is_ok() {}`: what the last call gives back is dropped, with the baton.
  unfoldable pub cells_woke :
      Cmd (Cells T W) (Unit {0}) → Result (Unit {0}) (Unit {0}) → Cmd (Cells T W) (Unit {0})
  unfolding cells_baton
  cells_woke rest (ok i) = rest
  cells_woke rest (err baton) = cells_baton

  unfoldable pub cells_wake_all : ℕ → Cmd (Cells T W) (Unit {0})
  unfolding wake_one cells_woke
  cells_wake_all zero = λ s. fault
  cells_wake_all (suc f) = do r ← on_waiters (wake_one tt); cells_woke (cells_wake_all f) r

  -- The initializer ended with a value.
  unfoldable pub cells_succeeds : ℕ → T → Cmd (Cells T W) T
  unfolding set_state borrow cells_wake_all cells_get unwrap drop_borrowed
  cells_succeeds f value = do
    set_state (initialized value)
    on_waiters borrow
    cells_wake_all f
    found ← cells_get
    reference ← unwrap found
    on_waiters drop_borrowed
    pure reference

  -- It ended with an error, panicked, or the future was dropped while it ran: the guard is dropped.
  unfoldable pub cells_fails : Cmd (Cells T W) (Unit {0})
  unfolding cells_baton
  cells_fails = cells_baton

  -- What the drop of a waiting future leaves to be dropped, and that drop.
  unfoldable pub cells_drop_state :
      WaitList.State (Unit {0}) (Unit {0}) → Cmd (Cells T W) (Unit {0})
  unfolding cells_baton
  cells_drop_state (input i) = pure tt
  cells_drop_state (output baton) = cells_baton

  unfoldable pub cells_drop : Ptr → Cmd (Cells T W) (Unit {0})
  unfolding wait_drop cells_drop_state
  cells_drop p = do state ← on_waiters (wait_drop p); cells_drop_state state
