-- ===== src/OnceCell/Pointers/Calls.antt =====
-- Any calls of a cell in any order, over the memory of its wait list, each with what it returns.
pub mod Runs
pub mod Owners
pub mod Panics
use unsync.Prelude.{
  ℕ, Bool, ◌||◌, Option, none, some, List, [], ◌∷◌, Run, returns, Cmd, ◌>>=◌, ◌>>◌, and_then, pure,
  is_some, if◌then◌else◌,
}
use unsync.WaitList.{Ptr}
use unsync.WaitList.Links.{has}
use unsync.WaitList.Spec.{find_done}
use unsync.Prelude.Histories.{reply}
use unsync.OnceCell.{
  OnceCell, SetResult, Progress, get, set, init_start, init_poll, init_succeeds, init_fails,
  init_drop,
}
use unsync.OnceCell.Pointers.{
  Cells, cells_get, cells_set, cells_start, cells_poll, cells_succeeds, cells_fails, cells_drop,
}

pub data Call (T W : Type 0) : Type 0 where
  gets : Call T W
  sets : T → Call T W
  starts : Ptr → W → Call T W
  polls : Ptr → W → Call T W
  succeeds : T → Call T W
  fails : Call T W
  drops : Ptr → Call T W

pub data Reply (T : Type 0) : Type 0 where
  got : Option T → Reply T
  tried : SetResult T → Reply T
  went : Progress T → Reply T
  ended : T → Reply T
  done : Reply T

module _ {T W : Type 0} where
  abbrev pub tried_after : SetResult T × OnceCell T W → Reply T × OnceCell T W
  tried_after (r, cell) = (tried r, cell)

  abbrev pub went_after : Progress T × OnceCell T W → Reply T × OnceCell T W
  went_after (r, cell) = (went r, cell)

  abbrev pub done_after : Option (OnceCell T W) → Option (Reply T × OnceCell T W)
  done_after none = none
  done_after (some cell) = some (done, cell)

  -- What `get_or_try_init` returns is what the cell shows.
  abbrev pub shown_in : OnceCell T W → Option T → Option (Reply T × OnceCell T W)
  shown_in cell none = none
  shown_in cell (some value) = some (ended value, cell)

  abbrev pub ended_after : Option (OnceCell T W) → Option (Reply T × OnceCell T W)
  ended_after none = none
  ended_after (some cell) = shown_in cell (get cell)

module _ {T W : Type 0} (will_wake : W → W → Bool) where
  unfoldable pub call : ℕ → Call T W → Cmd (Cells T W) (Reply T)
  unfolding cells_get cells_set cells_start cells_poll cells_succeeds cells_fails cells_drop
  call f gets = do r ← cells_get; pure (got r)
  call f (sets value) = do r ← cells_set value; pure (tried r)
  call f (starts p cx) = do r ← cells_start will_wake p cx; pure (went r)
  call f (polls p cx) = do r ← cells_poll will_wake p cx; pure (went r)
  call f (succeeds value) = do r ← cells_succeeds f value; pure (ended r)
  call f fails = do cells_fails; pure done
  call f (drops p) = do cells_drop p; pure done

  -- The cell over the promise of its wait list. `none` where no such call can be made,
  -- and where a poll comes to the `unreachable!()` of `get_or_try_init`, which is a panic (Panics).
  unfoldable pub promised : Call T W → OnceCell T W → Option (Reply T × OnceCell T W)
  unfolding get set init_start init_poll init_succeeds init_fails init_drop
  promised gets cell = some (got (get cell), cell)
  promised (sets value) cell = some (tried_after (set value cell))
  promised (starts p cx) cell =
      if has p cell.waiters.waiting || is_some (find_done p cell.waiters.done)
      then none
      else some (went_after (init_start p cx cell))
  promised (polls p cx) cell = reply went (init_poll will_wake p cx cell)
  promised (succeeds value) cell = ended_after (init_succeeds value cell)
  promised fails cell = some (done, init_fails cell)
  promised (drops p) cell = done_after (init_drop p cell)
