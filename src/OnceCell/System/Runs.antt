-- ===== src/OnceCell/System/Runs.antt =====
-- Whatever futures do with a cell, in any order: one initializer runs at a time, and it runs or is
-- about to whenever somebody waits.
use unsync.Prelude.{
  ℕ, suc, ◌-◌, ◌≤◌, ◌≡◌, ◌≢◌, refl, sym, subst, ◌∙◌, Bool, Option, none, some, [], arith, length,
  Poll, pending, ready, ◌++◌,
}
use mathlib.Core.List.{map, reverse}
use unsync.WaitList
use unsync.WaitList.{Ptr, input, output}
use unsync.WaitList.Spec.{
  Queue, find_done, remove_done, remove, update, repoll, start, empty, find_input,
}
use unsync.WaitList.Spec
use unsync.WaitList.Links.{waker_of}
use unsync.WaitList.Spec.Cases.{poll-Polled, drop-Dropped}
use unsync.OnceCell.{
  OnceCell, State, uninit, initializing, initialized, Progress, new, set, set_in, init_start,
  init_start_in, init_poll, init_found, init_handed, init_succeeds, init_fails, init_drop,
  drop_found, drop_baton, drop_baton_in, get, get_state,
}
use unsync.OnceCell.System.{
  System, joined, Step, sets, starts, polls, succeeds, fails, drops, Reach, begins, goes,
}
-- Who holds the job: nobody, or exactly one, which runs the initializer or has been handed the
-- baton and not run yet.
use unsync.OnceCell.System.Jobs.{
  Jobs, Freed, drop_baton-Jobs, set-Jobs, init_start-Jobs, init_found-Jobs, Dropped-Jobs,
  wake_all-nobody, wake_all-wakes, handed,
}

module _ {T W : Type 0} where
  abbrev pub IsSound : System T W → Type 0
  IsSound s = Jobs s.cell.state s.cell.waiters s.leaders

  -- The poll of a future that waits for the baton or was handed it returns: it does not come upon
  -- the state `Uninit` that the code holds to be unreachable. It waits on, takes the job over, or
  -- has the value.
  pub init_poll-Found :
      (will_wake : W → W → Bool) (p : Ptr) (cx : W) (s : System T W)
      → Spec.poll will_wake p cx s.cell.waiters ≢ none
      → IsSound s
      → (r : Progress T) × ((cell : OnceCell T W) × (init_poll will_wake p cx s.cell
            ≡ some (r, cell))
          × IsSound (record { cell = cell; leaders = joined r s.leaders }))
  unfolding init_poll
  init_poll-Found will_wake p cx s here v =
      init_found-Jobs s.cell.state p cx s.cell.waiters s.leaders will_wake
        (poll-Polled p s.cell.waiters will_wake cx) here v

  -- The drop of a future that waits or was handed the baton returns, and the job is handed on or
  -- given up with it.
  pub init_drop-hands :
      (p : Ptr) (s : System T W)
      → Spec.drop p s.cell.waiters ≢ none
      → IsSound s
      → (cell : OnceCell T W) × (init_drop p s.cell ≡ some cell)
        × IsSound (record s { cell = cell })
  unfolding init_drop
  init_drop-hands p s here v =
      Dropped-Jobs s.cell.state p s.cell.waiters s.leaders (drop-Dropped p s.cell.waiters) here v

  -- The end of the initializer returns, nobody waits any more, and the value is there.
  pub init_succeeds-clears :
      (value : T) (cell : OnceCell T W)
      → (after : OnceCell T W) × (init_succeeds value cell ≡ some after)
        × (get after ≡ some value)
        × (after.waiters.waiting ≡ [])
  unfolding init_succeeds get get_state
  init_succeeds-clears value cell =
      let (q, run, nobody) =
        wake_all-nobody (suc (length cell.waiters.waiting)) cell.waiters.waiting cell.waiters.done
          cell.waiters.woken (omega arith) in
      (
        record { state = initialized value; waiters = q },
        rw (run, init_succeeds) refl,
        refl,
        nobody,
      )

  -- The end of the initializer returns with the value in the cell: it wakes the task of each future
  -- that waits, the oldest first, hands each of them a baton, and leaves nobody waiting.
  pub init_succeeds-wakes :
      (value : T) (cell : OnceCell T W)
      → (after : OnceCell T W) × (init_succeeds value cell ≡ some after)
        × (get after ≡ some value)
        × (after.waiters.waiting ≡ [])
        × (after.waiters.done ≡ reverse (map handed cell.waiters.waiting) ++ cell.waiters.done)
        × (after.waiters.woken ≡ reverse (map waker_of cell.waiters.waiting) ++ cell.waiters.woken)
  unfolding init_succeeds get get_state
  init_succeeds-wakes value cell =
      let (q, run, nobody, done, woken) =
        wake_all-wakes (suc (length cell.waiters.waiting)) cell.waiters.waiting cell.waiters.done
          cell.waiters.woken (omega arith) in
      (
        record { state = initialized value; waiters = q },
        rw (run, init_succeeds) refl,
        refl,
        nobody,
        done,
        woken,
      )

  init_poll-missing :
      (will_wake : W → W → Bool) (p : Ptr) (cx : W) (cell : OnceCell T W)
      → Spec.poll will_wake p cx cell.waiters ≡ none
      → init_poll will_wake p cx cell ≡ none
  unfolding init_poll init_found
  init_poll-missing will_wake p cx cell e = rw e refl

  init_drop-missing :
      (p : Ptr) (cell : OnceCell T W) → Spec.drop p cell.waiters ≡ none → init_drop p cell ≡ none
  unfolding init_drop drop_found
  init_drop-missing p cell e = rw e refl

  abbrev PolledIf : ℕ → Option (Progress T × OnceCell T W) → Type 0
  PolledIf n none = Unit {0}
  PolledIf n (some (r, cell)) = Jobs cell.state cell.waiters (joined r n)

  abbrev DroppedIf : ℕ → Option (OnceCell T W) → Type 0
  DroppedIf n none = Unit {0}
  DroppedIf n (some cell) = Jobs cell.state cell.waiters n

  Jobs-led :
      (st : State T) (q : Queue (Unit {0}) (Unit {0}) W) (n : ℕ)
      → 1 ≤ n
      → Jobs st q n
      → (n ≡ 1) × Freed st q (n - 1)
  Jobs-led uninit q n h (z, w, d) = absurd (omega arith)
  Jobs-led initializing q n h j = (omega arith, omega arith)
  Jobs-led (initialized v) q n h (z, w) = absurd (omega arith)

  pub succeeds-Jobs :
      (value : T) (cell after : OnceCell T W) (n : ℕ)
      → 1 ≤ n
      → Jobs cell.state cell.waiters n
      → init_succeeds value cell ≡ some after
      → Jobs after.state after.waiters (n - 1)
  unfolding init_succeeds
  succeeds-Jobs value cell after n h j e =
      let (one, freed) = Jobs-led cell.state cell.waiters n h j in
      let (q, run, nobody) =
        wake_all-nobody (suc (length cell.waiters.waiting)) cell.waiters.waiting cell.waiters.done
          cell.waiters.woken (omega arith) in
      let run' : init_succeeds value cell
          ≡ some (record { state = initialized value; waiters = q }) =
        rw (run, init_succeeds) refl in
      subst (DroppedIf (n - 1)) (sym run' ∙ e) (omega (arith, one), nobody)

  Step-IsSound :
      (will_wake : W → W → Bool) {s t : System T W} → Step will_wake s t → IsSound s → IsSound t
  unfolding init_fails
  Step-IsSound will_wake {s} (sets value) v = set-Jobs s.cell.state s.cell.waiters value s.leaders v
  Step-IsSound will_wake {s} (starts p cx out fresh) v =
      init_start-Jobs s.cell.state s.cell.waiters p cx s.leaders v
  Step-IsSound will_wake {s} (polls p cx r cell h) v =
      let (r', (cell', e, j)) =
        init_poll-Found will_wake p cx s
          (λ e. let missed = init_poll-missing will_wake p cx s.cell e in cc) v in
      subst (PolledIf s.leaders) (sym e ∙ h) j
  Step-IsSound will_wake {s} (succeeds value cell led h) v =
      succeeds-Jobs value s.cell cell s.leaders led v h
  Step-IsSound will_wake {s} (fails led) v =
      let (one, freed) = Jobs-led s.cell.state s.cell.waiters s.leaders led v in
      drop_baton-Jobs s.cell.state s.cell.waiters.waiting s.cell.waiters.done s.cell.waiters.woken
        (s.leaders - 1) freed
  Step-IsSound will_wake {s} (drops p cell h) v =
      let (cell', e, j) =
        init_drop-hands p s (λ e. let missed = init_drop-missing p s.cell e in cc) v in
      subst (DroppedIf s.leaders) (sym e ∙ h) j

  -- Whatever futures do with a new cell, in any order, and whether their initializers succeed, fail
  -- or are dropped: while the cell is `Initializing` exactly one future has the job, by running its
  -- initializer or by a baton that it was handed; otherwise none runs one and none waits, and where
  -- the cell is `Uninit` no baton is left over.
  pub Reach-Jobs :
      (will_wake : W → W → Bool) {s : System T W}
      → Reach will_wake s
      → Jobs s.cell.state s.cell.waiters s.leaders
  unfolding new empty
  Reach-Jobs will_wake begins = (refl, refl, refl)
  Reach-Jobs will_wake (goes r step) = Step-IsSound will_wake step (Reach-Jobs will_wake r)

  drop_baton-stays :
      (value : T) (cell : OnceCell T W)
      → cell.state ≡ initialized value
      → (drop_baton cell).state ≡ initialized value
  unfolding drop_baton drop_baton_in
  drop_baton-stays value cell h = rw h refl

  abbrev PollStays : T → Option (Progress T × OnceCell T W) → Type 0
  PollStays value none = Unit {0}
  PollStays value (some (r, cell)) = cell.state ≡ initialized value

  abbrev DropStays : T → Option (OnceCell T W) → Type 0
  DropStays value none = Unit {0}
  DropStays value (some cell) = cell.state ≡ initialized value

  init_found-stays :
      (value : T) (cell : OnceCell T W)
      → cell.state ≡ initialized value
      → (x : Option (Poll (Unit {0}) × Queue (Unit {0}) (Unit {0}) W))
      → PollStays value (init_found cell x)
  unfolding init_found init_handed
  init_found-stays value cell h none = tt
  init_found-stays value cell h (some (pending, q)) = h
  init_found-stays value cell h (some (ready u, q)) = rw h refl

  drop_found-stays :
      (value : T) (cell : OnceCell T W)
      → cell.state ≡ initialized value
      → (x : Option (WaitList.State (Unit {0}) (Unit {0}) × Queue (Unit {0}) (Unit {0}) W))
      → DropStays value (drop_found cell x)
  unfolding drop_found
  drop_found-stays value cell h none = tt
  drop_found-stays value cell h (some (input i, q)) = h
  drop_found-stays value cell h (some (output o, q)) =
      drop_baton-stays value (record cell { waiters = q }) h

  -- A value that a cell holds is the value that it holds after every call: no initializer that is
  -- under way and no `set` replaces it.
  pub Step-stays :
      (will_wake : W → W → Bool) (value : T) {s t : System T W}
      → IsSound s
      → s.cell.state ≡ initialized value
      → Step will_wake s t
      → t.cell.state ≡ initialized value
  unfolding set set_in init_start init_start_in init_fails init_poll init_drop
  Step-stays will_wake value {s} v h (sets other) = rw h refl
  Step-stays will_wake value {s} v h (starts p cx out fresh) = rw h refl
  Step-stays will_wake value {s} v h (polls p cx r cell e) =
      subst (PollStays value) e
        (init_found-stays value s.cell h (Spec.poll will_wake p cx s.cell.waiters))
  Step-stays will_wake value {s} v h (succeeds other cell led e) =
      let none_leads : Jobs (initialized value) s.cell.waiters s.leaders = rw h at v in
      absurd (omega (arith, none_leads.0))
  Step-stays will_wake value {s} v h (fails led) = drop_baton-stays value s.cell h
  Step-stays will_wake value {s} v h (drops p cell e) =
      subst (DropStays value) e (drop_found-stays value s.cell h (Spec.drop p s.cell.waiters))
