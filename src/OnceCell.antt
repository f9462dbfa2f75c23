-- ===== src/OnceCell.antt =====
-- src/once_cell.rs, over the promise of its wait list (WaitList/Spec.antt), which the pointers keep.
--
-- A baton holds nothing but the cell, so what the wait list hands over is the unit. The future
-- `get_or_try_init` is a state machine: its start, its polls while it waits for a baton, the end of
-- the initializer that it runs, and its drop in either state. The initializer is any code of the
-- caller, and is known by its outcome. No call keeps the wait list borrowed when
-- other code runs, so its borrows are left out; OnceCell/Pointers has them.
pub mod System
pub mod Values
pub mod Sets
pub mod Futures
pub mod Waiting
pub mod Pointers
mod Tests
use unsync.Prelude.{
  ℕ, zero, suc, length, Bool, Option, none, some, [], Result, ok, err, List, ◌∷◌, Poll, ready,
  pending,
}
use unsync.WaitList.{Ptr, input, output}
use unsync.WaitList
use unsync.WaitList.Links.{Entry}
use unsync.WaitList.Spec.{Queue, empty, start}
use unsync.WaitList.Spec

pub data State (T : Type 0) : Type 0 where
  uninit initializing : State T
  initialized : T → State T

pub record OnceCell (T W : Type 0) : Type 0 where
  pub state : State T
  pub waiters : Queue (Unit {0}) (Unit {0}) W

pub data SetResult (T : Type 0) : Type 0 where
  set_ok : T → SetResult T
  set_initializing : T → SetResult T
  set_initialized : T → T → SetResult T

-- A future that is polled waits, goes on to run its initializer, or has the value.
pub data Progress (T : Type 0) : Type 0 where
  waiting leading : Progress T
  finished : T → Progress T

module _ {T : Type 0} where
  unfoldable pub get_state : State T → Option T
  get_state uninit = none
  get_state initializing = none
  get_state (initialized value) = some value

module _ {W : Type 0} where
  -- `while waiters.wake_one(..).is_ok() {}`, on fuel; `none` if the fuel runs out.
  unfoldable pub wake_all :
      ℕ → Queue (Unit {0}) (Unit {0}) W → Option (Queue (Unit {0}) (Unit {0}) W)
  unfolding Spec.wake_one
  wake_all zero q = none
  wake_all (suc f) q =
      let (r, q') = Spec.wake_one tt q in elim r [ ok u ↦ wake_all f q' | err u ↦ some q' ]

module _ {T W : Type 0} where
  unfoldable pub new : OnceCell T W
  unfolding empty
  new = record { state = uninit; waiters = empty }

  unfoldable pub get : OnceCell T W → Option T
  unfolding get_state
  get cell = get_state cell.state

  unfoldable pub set_in : State T → T → OnceCell T W → SetResult T × OnceCell T W
  set_in uninit value cell = (set_ok value, record cell { state = initialized value })
  set_in initializing value cell = (set_initializing value, cell)
  set_in (initialized reference) value cell = (set_initialized reference value, cell)

  unfoldable pub set : T → OnceCell T W → SetResult T × OnceCell T W
  unfolding set_in
  set value cell = set_in cell.state value cell

  unfoldable pub leftover :
      Result (Unit {0}) (Unit {0}) × Queue (Unit {0}) (Unit {0}) W → OnceCell T W → OnceCell T W
  leftover (ok u, q) cell = record cell { waiters = q }
  leftover (err u, q) cell = record { state = uninit; waiters = q }

  -- `Drop` of a baton
  unfoldable pub drop_baton_in : State T → OnceCell T W → OnceCell T W
  unfolding leftover Spec.wake_one
  drop_baton_in uninit cell = cell
  drop_baton_in initializing cell = leftover (Spec.wake_one tt cell.waiters) cell
  drop_baton_in (initialized value) cell = cell

  unfoldable pub drop_baton : OnceCell T W → OnceCell T W
  unfolding drop_baton_in
  drop_baton cell = drop_baton_in cell.state cell

  -- The start of `get_or_try_init`, up to its first `await`.
  unfoldable pub init_start_in : State T → Ptr → W → OnceCell T W → Progress T × OnceCell T W
  unfolding start
  init_start_in uninit p cx cell = (leading, record cell { state = initializing })
  init_start_in initializing p cx cell =
      (waiting, record cell { waiters = start p tt cx cell.waiters })
  init_start_in (initialized value) p cx cell = (finished value, cell)

  unfoldable pub init_start : Ptr → W → OnceCell T W → Progress T × OnceCell T W
  unfolding init_start_in
  init_start p cx cell = init_start_in cell.state p cx cell

  -- The `match` on the state when the baton came. `none` is `unreachable!()`.
  unfoldable pub init_handed : State T → OnceCell T W → Option (Progress T × OnceCell T W)
  init_handed uninit cell = none
  init_handed initializing cell = some (leading, cell)
  init_handed (initialized value) cell = some (finished value, cell)

  unfoldable pub init_found :
      OnceCell T W
      → Option (Poll (Unit {0}) × Queue (Unit {0}) (Unit {0}) W)
      → Option (Progress T × OnceCell T W)
  unfolding init_handed
  init_found cell none = none
  init_found cell (some (pending, q)) = some (waiting, record cell { waiters = q })
  init_found cell (some (ready u, q)) = init_handed cell.state (record cell { waiters = q })

  -- A poll while it waits; also `none` where no such future waits.
  unfoldable pub init_poll :
      (W → W → Bool) → Ptr → W → OnceCell T W → Option (Progress T × OnceCell T W)
  unfolding Spec.poll init_found
  init_poll will_wake p cx cell = init_found cell (Spec.poll will_wake p cx cell.waiters)

  -- The initializer ended with a value.
  unfoldable pub init_succeeds : T → OnceCell T W → Option (OnceCell T W)
  unfolding wake_all
  init_succeeds value cell = elim (wake_all (suc (length cell.waiters.waiting)) cell.waiters) [
    | none ↦ none
    | some q ↦ some (record { state = initialized value; waiters = q })
  ]

  -- It ended with an error, panicked, or the future was dropped while it ran.
  unfoldable pub init_fails : OnceCell T W → OnceCell T W
  unfolding drop_baton
  init_fails cell = drop_baton cell

  unfoldable pub drop_found :
      OnceCell T W
      → Option (WaitList.State (Unit {0}) (Unit {0}) × Queue (Unit {0}) (Unit {0}) W)
      → Option (OnceCell T W)
  unfolding drop_baton
  drop_found cell none = none
  drop_found cell (some (input i, q)) = some (record cell { waiters = q })
  drop_found cell (some (output o, q)) = some (drop_baton (record cell { waiters = q }))

  -- The future was dropped while it waited for a baton, or with one that it had not seen.
  unfoldable pub init_drop : Ptr → OnceCell T W → Option (OnceCell T W)
  unfolding Spec.drop drop_found
  init_drop p cell = drop_found cell (Spec.drop p cell.waiters)

  -- `take`, where nobody else uses the cell, and `into_inner`, which is what it returns.
  unfoldable pub take : OnceCell T W → Option T × OnceCell T W
  unfolding get new
  take cell = (get cell, new)
