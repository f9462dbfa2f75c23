-- ===== src/OnceCell/System.antt =====
-- A cell with the futures that use it. A step is one call by anybody, a run is any sequence of
-- steps from a new cell.
pub mod Jobs
pub mod Runs
use unsync.Prelude.{ℕ, ◌+◌, ◌-◌, ◌≤◌, ◌≡◌, Bool, true, false, Option, none, some, List, []}
use unsync.WaitList.{Ptr}
use unsync.WaitList.Links.{has}
use unsync.WaitList.Spec.{find_done}
use unsync.OnceCell.{
  OnceCell, Progress, waiting, leading, finished, new, set, init_start, init_poll, init_succeeds,
  init_fails, init_drop,
}

-- `leaders` is the number of futures that run their initializer.
pub record System (T W : Type 0) : Type 0 where
  pub cell : OnceCell T W
  pub leaders : ℕ

module _ {T : Type 0} where
  -- The leaders after a future made that progress.
  abbrev pub joined : Progress T → ℕ → ℕ
  joined waiting n = n
  joined leading n = n + 1
  joined (finished value) n = n

module _ {T W : Type 0} where
  abbrev pub initial : System T W
  initial = record { cell = new; leaders = 0 }

  pub data Step (will_wake : W → W → Bool) (s : System T W) : System T W → Type 0 where
    sets : (value : T) → Step will_wake s (record s { cell = (set value s.cell).1 })
    starts :
        (p : Ptr) (cx : W)
        → has p s.cell.waiters.waiting ≡ false
        → find_done p s.cell.waiters.done ≡ none
        → Step will_wake s (record {
          cell = (init_start p cx s.cell).1;
          leaders = joined (init_start p cx s.cell).0 s.leaders;
        })
    polls :
        (p : Ptr) (cx : W) (r : Progress T) (cell : OnceCell T W)
        → init_poll will_wake p cx s.cell ≡ some (r, cell)
        → Step will_wake s (record { cell = cell; leaders = joined r s.leaders })
    succeeds :
        (value : T) (cell : OnceCell T W)
        → 1 ≤ s.leaders
        → init_succeeds value s.cell ≡ some cell
        → Step will_wake s (record { cell = cell; leaders = s.leaders - 1 })
    fails :
        1 ≤ s.leaders
        → Step will_wake s (record { cell = init_fails s.cell; leaders = s.leaders - 1 })
    drops :
        (p : Ptr) (cell : OnceCell T W)
        → init_drop p s.cell ≡ some cell
        → Step will_wake s (record s { cell = cell })

  -- What can come about from a new cell.
  pub data Reach (will_wake : W → W → Bool) : System T W → Type 0 where
    begins : Reach will_wake initial
    goes : {s t : System T W} → Reach will_wake s → Step will_wake s t → Reach will_wake t
