-- ===== src/OnceCell/System/Jobs.antt =====
-- Who holds the job of initializing a cell, through each of the calls.
use unsync.Prelude.{
  ℕ, zero, suc, ◌+◌, ◌<◌, ◌≡◌, ◌≢◌, refl, Bool, Option, none, some, List, [], ◌∷◌, arith, length,
  Poll, ◌++◌, ◌∙◌, reverse-cons-append,
}
use mathlib.Core.List.{map, reverse}
use unsync.WaitList
use unsync.WaitList.{Ptr, input, output}
use unsync.WaitList.Links.{Entry, waker_of}
use unsync.WaitList.Spec.{
  Queue, find_done, remove_done, remove, update, repoll, start, empty, find_input,
}
use unsync.WaitList.Spec
use unsync.WaitList.Spec.Cases.{Polled, missing, waits, ends, Dropped, waited, woken}
use unsync.OnceCell.{
  OnceCell, State, uninit, initializing, initialized, Progress, waiting, leading, finished, set,
  set_in, init_start, init_start_in, init_found, init_handed, drop_found, drop_baton, drop_baton_in,
  leftover, wake_all,
}
use unsync.OnceCell.System.{joined}

-- Who holds the job: nobody, or exactly one, which runs the initializer or has been handed the
-- baton and not run yet.
abbrev pub Jobs : {T W : Type 0} → State T → Queue (Unit {0}) (Unit {0}) W → ℕ → Type 0
Jobs uninit q n = (n ≡ 0) × (q.waiting ≡ []) × (q.done ≡ [])
Jobs initializing q n = n + length q.done ≡ 1
Jobs (initialized value) q n = (n ≡ 0) × (q.waiting ≡ [])

length-remove_done :
    (p : Ptr) (ds : List (Ptr × Unit {0})) (o : Unit {0})
    → find_done p ds ≡ some o
    → suc (length (remove_done p ds)) ≡ length ds
unfolding find_done remove_done
length-remove_done p [] o h = cc
length-remove_done p ((q, u) ∷ ds) o h = ground (arith, length-remove_done p ds o)

module _ {W : Type 0} where
  -- The loop wakes everybody, and the fuel is enough.
  pub wake_all-nobody :
      (f : ℕ) (es : List (Entry (Unit {0}) W)) (ds : List (Ptr × Unit {0})) (ws : List W)
      → length es < f
      → let q : Queue (Unit {0}) (Unit {0}) W = record { waiting = es; done = ds; woken = ws } in
        (t : Queue (Unit {0}) (Unit {0}) W) × (wake_all f q ≡ some t) × (t.waiting ≡ [])
  unfolding wake_all Spec.wake_one Spec.wake_front
  wake_all-nobody zero es ds ws h = absurd (omega arith)
  wake_all-nobody (suc f) [] ds ws h = (_, refl, refl)
  wake_all-nobody (suc f) (e ∷ es) ds ws h =
      wake_all-nobody f es ((e.ptr, tt) ∷ ds) (e.waker ∷ ws) (omega arith)

  -- What a future that is woken is handed: the baton.
  abbrev pub handed : Entry (Unit {0}) W → Ptr × Unit {0}
  handed e = (e.ptr, tt)

  -- The loop wakes those that wait one by one, the oldest first.
  pub wake_all-wakes :
      (f : ℕ) (es : List (Entry (Unit {0}) W)) (ds : List (Ptr × Unit {0})) (ws : List W)
      → length es < f
      → let q : Queue (Unit {0}) (Unit {0}) W = record { waiting = es; done = ds; woken = ws } in
        (t : Queue (Unit {0}) (Unit {0}) W) × (wake_all f q ≡ some t)
        × (t.waiting ≡ [])
        × (t.done ≡ reverse (map handed es) ++ ds)
        × (t.woken ≡ reverse (map waker_of es) ++ ws)
  unfolding wake_all Spec.wake_one Spec.wake_front
  wake_all-wakes zero es ds ws h = absurd (omega arith)
  wake_all-wakes (suc f) [] ds ws h = (_, refl, refl, refl, refl)
  wake_all-wakes (suc f) (e ∷ es) ds ws h =
      let (t, run, nobody, is_done, was_woken) =
        wake_all-wakes f es ((e.ptr, tt) ∷ ds) (e.waker ∷ ws) (omega arith) in
      (
        t,
        run,
        nobody,
        is_done ∙ reverse-cons-append (handed e) (map handed es) ds,
        was_woken ∙ reverse-cons-append e.waker (map waker_of es) ws,
      )

  update-nil :
      (f : Entry (Unit {0}) W → Entry (Unit {0}) W) (p : Ptr) (es : List (Entry (Unit {0}) W))
      → es ≡ []
      → update f p es ≡ []
  unfolding update
  update-nil f p [] h = refl
  update-nil f p (e ∷ es) h = cc

  remove-nil : (p : Ptr) (es : List (Entry (Unit {0}) W)) → es ≡ [] → remove p es ≡ []
  unfolding remove
  remove-nil p [] h = refl
  remove-nil p (e ∷ es) h = cc

module _ {T W : Type 0} where
  -- The same when the one job has no holder.
  abbrev pub Freed : State T → Queue (Unit {0}) (Unit {0}) W → ℕ → Type 0
  Freed uninit q n = Jobs {T = T} uninit q n
  Freed initializing q n = n + length q.done ≡ 0
  Freed (initialized value) q n = Jobs (initialized value) q n

  -- The drop of a baton hands the job on, or gives it up if nobody waits.
  pub drop_baton-Jobs :
      (st : State T) (es : List (Entry (Unit {0}) W)) (ds : List (Ptr × Unit {0})) (ws : List W)
      (n : ℕ)
      → let q : Queue (Unit {0}) (Unit {0}) W = record { waiting = es; done = ds; woken = ws } in
        let after = drop_baton (record { state = st; waiters = q }) in
        Freed st q n → Jobs after.state after.waiters n
  unfolding drop_baton drop_baton_in leftover Spec.wake_one Spec.wake_front
  drop_baton-Jobs uninit es ds ws n j = j
  drop_baton-Jobs initializing [] [] ws n j = (omega arith, refl, refl)
  drop_baton-Jobs initializing [] (d ∷ ds) ws n j = absurd (omega arith)
  drop_baton-Jobs initializing (x ∷ es) ds ws n j = omega arith
  drop_baton-Jobs (initialized value) es ds ws n j = j

  pub set-Jobs :
      (st : State T) (q : Queue (Unit {0}) (Unit {0}) W) (value : T) (n : ℕ)
      → Jobs st q n
      → let after = (set value (record { state = st; waiters = q })).1 in
        Jobs after.state after.waiters n
  unfolding set set_in
  set-Jobs uninit q value n (z, w, d) = (z, w)
  set-Jobs initializing q value n j = j
  set-Jobs (initialized v) q value n j = j

  pub init_start-Jobs :
      (st : State T) (q : Queue (Unit {0}) (Unit {0}) W) (p : Ptr) (cx : W) (n : ℕ)
      → Jobs st q n
      → let (r, after) = init_start p cx (record { state = st; waiters = q }) in
        Jobs after.state after.waiters (joined r n)
  unfolding init_start init_start_in start
  init_start-Jobs uninit q p cx n (z, w, d) = rw (z, d) refl
  init_start-Jobs initializing q p cx n j = j
  init_start-Jobs (initialized v) q p cx n j = j

  -- A poll that finds its future returns: the state is never `uninit` there.
  abbrev pub Found : Option (Progress T × OnceCell T W) → ℕ → Type 0
  Found x n =
      (r : Progress T) × ((cell : OnceCell T W) × (x ≡ some (r, cell))
        × Jobs cell.state cell.waiters (joined r n))

  init_handed-Jobs :
      (st : State T) (p : Ptr) (q : Queue (Unit {0}) (Unit {0}) W) (n : ℕ) (o : Unit {0})
      → find_done p q.done ≡ some o
      → Jobs st q n
      → Found
          (init_handed st
            (record { state = st; waiters = record q { done = remove_done p q.done } }))
          n
  unfolding init_handed
  init_handed-Jobs uninit p q n o h (z, w, d) =
      let one = length-remove_done p q.done o h in
      let none_done : length q.done ≡ 0 = rw d refl in absurd (omega arith)
  init_handed-Jobs initializing p q n o h j =
      let one = length-remove_done p q.done o h in (leading, (_, refl, omega arith))
  init_handed-Jobs (initialized v) p q n o h j = (finished v, (_, refl, j))

  pub init_found-Jobs :
      (st : State T) (p : Ptr) (cx : W) (q : Queue (Unit {0}) (Unit {0}) W) (n : ℕ)
      (will_wake : W → W → Bool) {x : Option (Poll (Unit {0}) × Queue (Unit {0}) (Unit {0}) W)}
      → Polled will_wake p cx q x
      → x ≢ none
      → Jobs st q n
      → Found (init_found (record { state = st; waiters = q }) x) n
  unfolding init_found
  init_found-Jobs st p cx q n will_wake missing here j = absurd (here refl)
  init_found-Jobs uninit p cx q n will_wake waits here (z, w, d) =
      (waiting, (_, refl, (z, update-nil (repoll will_wake cx) p q.waiting w, d)))
  init_found-Jobs initializing p cx q n will_wake waits here j = (waiting, (_, refl, j))
  init_found-Jobs (initialized v) p cx q n will_wake waits here (z, w) =
      (waiting, (_, refl, (z, update-nil (repoll will_wake cx) p q.waiting w)))
  init_found-Jobs st p cx q n will_wake (ends o h) here j = init_handed-Jobs st p q n o h j

  pub Dropped-Jobs :
      (st : State T) (p : Ptr) (q : Queue (Unit {0}) (Unit {0}) W) (n : ℕ)
      {x : Option (WaitList.State (Unit {0}) (Unit {0}) × Queue (Unit {0}) (Unit {0}) W)}
      → Dropped p q x
      → x ≢ none
      → Jobs st q n
      → (cell : OnceCell T W) × (drop_found (record { state = st; waiters = q }) x ≡ some cell)
        × Jobs cell.state cell.waiters n
  unfolding drop_found
  Dropped-Jobs st p q n missing here j = absurd (here refl)
  Dropped-Jobs uninit p q n (waited i h) here (z, w, d) =
      (_, refl, (z, remove-nil p q.waiting w, d))
  Dropped-Jobs initializing p q n (waited i h) here j = (_, refl, j)
  Dropped-Jobs (initialized v) p q n (waited i h) here (z, w) =
      (_, refl, (z, remove-nil p q.waiting w))
  Dropped-Jobs uninit p q n (woken o h) here (z, w, d) =
      let one = length-remove_done p q.done o h in
      let none_done : length q.done ≡ 0 = rw d refl in absurd (omega arith)
  Dropped-Jobs initializing p q n (woken o h) here j =
      let one = length-remove_done p q.done o h in
      (
        _,
        refl,
        drop_baton-Jobs initializing q.waiting (remove_done p q.done) q.woken n (omega arith),
      )
  Dropped-Jobs (initialized v) p q n (woken o h) here j =
      (_, refl, drop_baton-Jobs (initialized v) q.waiting (remove_done p q.done) q.woken n j)
