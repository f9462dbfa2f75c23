-- ===== src/OnceCell/Tests.antt =====
-- Runs of a cell, and its theorems at concrete calls.
use unsync.Prelude.{
  List, length, ◌+◌, ℕ, ◌≡◌, ◌≢◌, refl, ap, arith, Bool, true, false, none, some, is_some, [], ◌∷◌,
  ◌==◌,
}
use unsync.Prelude.{Result, Poll, ready, ok, err, returns}
use mathlib.Core.List.{map}
use unsync.OnceCell.Values.{set_result_value, set_result_ok}
use unsync.OnceCell.Sets.{set_all, set_all-first}
use unsync.WaitList.Links.{Entry}
use unsync.WaitList.Spec.{empty, find_done, remove_done, remove, find_input, start}
use unsync.WaitList.Spec
use unsync.OnceCell.{
  OnceCell, initializing, initialized, Progress, new, get, set, init_start, init_poll,
  init_succeeds, init_fails, init_drop,
}
use unsync.OnceCell.Futures.{
  insert_start, insert_poll, Answers, insert_start-Answered, insert_poll-Answered,
}
use unsync.OnceCell.Pointers.{Cells, cells_new}
use unsync.OnceCell.Pointers.Calls.{Reply, call}
use unsync.OnceCell.Pointers.Calls.Owners.{calls_of, cell_reach-Ends}
use unsync.Prelude.Histories.{calls}
use unsync.WaitList.Refine.{Refines}
use unsync.OnceCell.System.Jobs.{Jobs}
use unsync.OnceCell.System.{System, joined, Step, starts, fails, sets, Reach, begins, goes}
use unsync.OnceCell.System.Runs.{
  IsSound, Reach-Jobs, Step-stays, init_poll-Found, init_drop-hands, init_succeeds-wakes,
}

abbrev same : ℕ → ℕ → Bool
same v w = v == w

abbrev waiter : Entry (Unit {0}) ℕ
waiter = record { ptr = 20; input = tt; waker = 102 }

-- The future at 10 runs its initializer, the one at 20 waits; then the first fails.
abbrev led : System ℕ ℕ
led = record { cell = record { state = initializing; waiters = empty }; leaders = 1 }

abbrev awaited : System ℕ ℕ
awaited = record {
  cell = record {
    state = initializing;
    waiters = record { waiting = waiter ∷ []; done = []; woken = [] };
  };
  leaders = 1;
}

abbrev failed : System ℕ ℕ
failed = record {
  cell = record {
    state = initializing;
    waiters = record { waiting = []; done = (20, tt) ∷ []; woken = 102 ∷ [] };
  };
  leaders = 0;
}

failed-Reach : Reach same failed
unfolding new init_start empty find_done init_fails start
failed-Reach =
    goes {s = awaited}
      (goes {s = led} (goes begins (starts 10 101 refl refl)) (starts 20 102 refl refl))
      (fails (omega arith))

Reach-Jobs_example : 0 + 1 ≡ 1
Reach-Jobs_example = Reach-Jobs same failed-Reach

cell_reach-Ends_example :
    (rs : List (Reply ℕ)) × ((m : Cells ℕ ℕ) × (calls
          (call same (length (calls_of failed-Reach)))
          (calls_of failed-Reach)
          cells_new
        ≡ returns rs m)
      × (m.waiters.borrowed ≡ false)
      × Refines failed.cell.waiters m.waiters
      × Jobs m.state failed.cell.waiters 0)
cell_reach-Ends_example = cell_reach-Ends same failed-Reach

polled_there : Spec.poll same 20 102 failed.cell.waiters ≢ none
unfolding Spec.poll find_done remove_done
polled_there h = let e : true ≡ false = ap is_some h in cc

dropped_there : Spec.drop 20 failed.cell.waiters ≢ none
unfolding Spec.drop find_done remove_done find_input
dropped_there h = let e : true ≡ false = ap is_some h in cc

init_poll-Found_example :
    (r : Progress ℕ) × ((cell : OnceCell ℕ ℕ) × (init_poll same 20 102 failed.cell ≡ some (r, cell))
      × IsSound (record { cell = cell; leaders = joined r 0 }))
init_poll-Found_example = init_poll-Found same 20 102 failed polled_there refl

init_drop-hands_example :
    (cell : OnceCell ℕ ℕ) × (init_drop 20 failed.cell ≡ some cell)
    × IsSound (record failed { cell = cell })
init_drop-hands_example = init_drop-hands 20 failed dropped_there refl

init_succeeds-wakes_example :
    (after : OnceCell ℕ ℕ) × (init_succeeds 5 awaited.cell ≡ some after)
    × (get after ≡ some 5)
    × (after.waiters.waiting ≡ [])
    × (after.waiters.done ≡ (20, tt) ∷ [])
    × (after.waiters.woken ≡ 102 ∷ [])
init_succeeds-wakes_example = init_succeeds-wakes 5 awaited.cell

-- An `insert` of 6 is handed the baton that the first one dropped.
insert_poll-Answered_example :
    (r : Poll (Result ℕ (ℕ × ℕ))) × ((after : OnceCell ℕ ℕ) × (insert_poll same 20 102 6 failed.cell
        ≡ some (r, after))
      × Answers 6 failed.cell r after
      × IsSound (record failed { cell = after }))
insert_poll-Answered_example = insert_poll-Answered same 20 102 6 failed polled_there refl

inserted :
    insert_poll same 20 102 6 failed.cell
    ≡ some (
      ready (ok 6),
      record {
        state = initialized 6;
        waiters = record { waiting = []; done = []; woken = 102 ∷ [] };
      },
    )
unfolding insert_poll init_poll Spec.poll find_done remove_done
inserted = refl

-- The cell holds 5, and keeps it when a `set` of 6 is tried.
abbrev filled : System ℕ ℕ
filled = record {
  cell = record { state = initialized 5; waiters = record { waiting = []; done = []; woken = [] } };
  leaders = 0;
}

set_again : Step same filled filled
unfolding set
set_again = sets 6

Step-stays_example : filled.cell.state ≡ initialized 5
Step-stays_example = Step-stays same 5 {s = filled} (refl, refl) refl set_again

-- A later `set` gives its value back and shows the first one.
set_all-first_example :
    let (rs, after) = set_all (5 ∷ 6 ∷ []) (new {T = ℕ} {W = ℕ}) in
    (map set_result_ok rs ≡ ok 5 ∷ err 6 ∷ [])
    × (map set_result_value rs ≡ some 5 ∷ some 5 ∷ [])
    × (get after ≡ some 5)
    × (after.waiters ≡ (new {T = ℕ} {W = ℕ}).waiters)
unfolding new
set_all-first_example = set_all-first 5 (6 ∷ []) new refl

insert_start-Answered_example :
    (r : Poll (Result ℕ (ℕ × ℕ))) × ((after : OnceCell ℕ ℕ) × (insert_start 30 103 6 filled.cell
        ≡ some (r, after))
      × Answers 6 filled.cell r after
      × IsSound (record filled { cell = after }))
insert_start-Answered_example = insert_start-Answered 30 103 6 filled (refl, refl)

refused : insert_start 30 103 6 filled.cell ≡ some (ready (err (5, 6)), filled.cell)
unfolding insert_start
refused = refl
