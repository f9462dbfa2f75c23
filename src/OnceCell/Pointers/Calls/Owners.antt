-- ===== src/OnceCell/Pointers/Calls/Owners.antt =====
-- The runs of a cell with the futures that use it, over the memory of the wait list.
use unsync.Prelude.{
  ◌≡◌, refl, sym, subst, Bool, false, some, Option, List, [], ◌∷◌, ◌++◌, returns, length,
}
use unsync.Prelude.Histories.{calls, promises, promises-snoc}
use unsync.WaitList.Refine.{Refines}
use unsync.OnceCell.{OnceCell, new, get, set, init_start}
use unsync.OnceCell.System.{
  System, Step, Reach, begins, goes, sets, starts, polls, succeeds, fails, drops,
}
use unsync.OnceCell.System.Jobs.{Jobs}
use unsync.OnceCell.System.Runs.{Reach-Jobs, init_succeeds-clears}
use unsync.OnceCell.Pointers.{Cells, cells_new}
use unsync.OnceCell.Pointers.Calls.{Call, Reply, call, promised}
use unsync.OnceCell.Pointers.Calls.Runs.{cell_calls-Ends}

-- The promise answers a call, and comes to `t`.
abbrev Answered : {T W : Type 0} → Option (Reply T × OnceCell T W) → OnceCell T W → Type 0
Answered {T} x t = (r : Reply T) × (x ≡ some (r, t))

module _ {T W : Type 0} {will_wake : W → W → Bool} where
  -- The calls that the owners make.
  abbrev pub call_of : {s t : System T W} → Step will_wake s t → Call T W
  call_of (sets value) = Call.sets value
  call_of (starts p cx out fresh) = Call.starts p cx
  call_of (polls p cx r cell h) = Call.polls p cx
  call_of (succeeds value cell l h) = Call.succeeds value
  call_of (fails l) = Call.fails
  call_of (drops p cell h) = Call.drops p

  abbrev pub calls_of : {s : System T W} → Reach will_wake s → List (Call T W)
  calls_of begins = []
  calls_of (goes r step) = calls_of r ++ (call_of step ∷ [])

  call_of-Answered :
      {s t : System T W} (step : Step will_wake s t)
      → Answered (promised will_wake (call_of step) s.cell) t.cell
  unfolding promised
  call_of-Answered {s = s} (sets value) = (Reply.tried (set value s.cell).0, refl)
  call_of-Answered {s = s} (starts p cx out fresh) =
      (Reply.went (init_start p cx s.cell).0, rw (out, fresh) refl)
  call_of-Answered (polls p cx r cell h) = (Reply.went r, rw h refl)
  call_of-Answered {s = s} (succeeds value cell l h) =
      let (after, ran, there, nobody) = init_succeeds-clears value s.cell in
      let same : after ≡ cell = cc in
      let there' : get cell ≡ some value = rw same at there in
      (Reply.ended value, rw (h, there') refl)
  call_of-Answered (fails l) = (Reply.done, refl)
  call_of-Answered (drops p cell h) = (Reply.done, rw h refl)

module _ {T W : Type 0} (will_wake : W → W → Bool) where
  calls_of-Answered :
      {s : System T W} (r : Reach will_wake s)
      → (rs : List (Reply T)) × (promises (promised will_wake) (calls_of r) new ≡ some (rs, s.cell))
  unfolding promises
  calls_of-Answered begins = ([], refl)
  calls_of-Answered (goes {s} {t} r step) =
      let (rs, h) = calls_of-Answered r in
      let (a, k) = call_of-Answered step in
      (
        rs ++ (a ∷ []),
        promises-snoc (promised will_wake) (calls_of r) (call_of step) new s.cell t.cell h k,
      )

  -- Whatever futures do with a new cell, in any order, and whether their initializers succeed, fail
  -- or are dropped: their calls return, run over the memory of the wait list; the list is not
  -- borrowed afterwards, and holds the futures that wait and the batons that were handed out; and the
  -- state in that memory is `Initializing` only while exactly one future has the job, by running its
  -- initializer or by a baton that it was handed, and otherwise none runs one and none waits.
  pub cell_reach-Ends :
      {s : System T W} (r : Reach will_wake s)
      → (rs : List (Reply T)) × ((m : Cells T W) × (calls
              (call will_wake (length (calls_of r)))
              (calls_of r)
              cells_new
            ≡ returns rs m)
          × (m.waiters.borrowed ≡ false)
          × Refines s.cell.waiters m.waiters
          × Jobs m.state s.cell.waiters s.leaders)
  cell_reach-Ends {s} r =
      let (rs, h) = calls_of-Answered r in
      let k = cell_calls-Ends will_wake (calls_of r) h in
      (
        rs,
        (
          k.after,
          k.run,
          k.borrowed,
          k.stands.refines,
          subst (λ st. Jobs st s.cell.waiters s.leaders) (sym k.stands.state)
              (Reach-Jobs will_wake r),
        ),
      )
