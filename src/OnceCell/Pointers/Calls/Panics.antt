-- ===== src/OnceCell/Pointers/Calls/Panics.antt =====
-- Any calls of the cell over the memory, also those that panic.
--
-- `get_or_try_init` panics by `unreachable!()` where a future that was handed the baton is polled
-- while the cell is `Uninit`. No future of OnceCell/System comes to that, but calls of just any kind do.
use unsync.Prelude.{
  ℕ, ◌≡◌, refl, subst, Bool, true, false, not, ◌&&◌, Option, none, some, List, [], ◌∷◌, arith, inl,
  inr, Bool-cases, Option-cases, Run, returns, panic, abort, fault, and_then, is_some,
  if◌then◌else◌, length,
}
use unsync.Prelude.Histories.{calls, Lands}
use unsync.WaitList.Links.{has}
use unsync.WaitList.Spec.{find_done, empty}
use unsync.WaitList.Calls.Total.{new-idle}
use unsync.OnceCell.{OnceCell, State, uninit, initializing, initialized, new}
use unsync.OnceCell.Pointers.{Cells, cells_new}
use unsync.OnceCell.Pointers.Stands.{Stands, Ends}
use unsync.OnceCell.Pointers.Polls.{poll-panics}
use unsync.OnceCell.Pointers.Calls.{
  Call, gets, sets, starts, polls, succeeds, fails, drops, Reply, call, promised,
}
use unsync.OnceCell.Pointers.Calls.Runs.{Holds, Ends-map, call-Lands, new-Stands}

abbrev pub is_uninit : {T : Type 0} → State T → Bool
is_uninit uninit = true
is_uninit initializing = false
is_uninit (initialized value) = false

is_uninit-uninit : {T : Type 0} (st : State T) → is_uninit st ≡ true → st ≡ uninit
is_uninit-uninit uninit h = refl
is_uninit-uninit initializing h = cc
is_uninit-uninit (initialized value) h = cc

module _ {T W : Type 0} where
  -- The future was handed the baton, and the cell is `Uninit`.
  unfoldable pub is_unreachable : Call T W → OnceCell T W → Bool
  is_unreachable (polls p cx) cell =
      not (has p cell.waiters.waiting)
      && (is_some (find_done p cell.waiters.done) && is_uninit cell.state)
  is_unreachable gets cell = false
  is_unreachable (sets value) cell = false
  is_unreachable (starts p cx) cell = false
  is_unreachable (succeeds value) cell = false
  is_unreachable fails cell = false
  is_unreachable (drops p) cell = false

  -- The first reply is that of a call before.
  abbrev pub behind :
      Reply T
      → Option (Run (OnceCell T W) (List (Reply T)))
      → Option (Run (OnceCell T W) (List (Reply T)))
  behind r none = none
  behind r (some x) = some (and_then x λ rs u. returns (r ∷ rs) u)

  -- What comes of the calls behind the first one, if it can be made.
  unfoldable pub then_foretold :
      (OnceCell T W → Option (Run (OnceCell T W) (List (Reply T))))
      → Option (Reply T × OnceCell T W)
      → Option (Run (OnceCell T W) (List (Reply T)))
  then_foretold rest none = none
  then_foretold rest (some (r, next)) = behind r (rest next)

  -- A run over the memory that comes to what is foretold.
  abbrev pub Comes : {A : Type 0} → Run (OnceCell T W) A → Run (Cells T W) A → Type 0
  Comes (returns a cell) x = Ends a cell false x
  Comes panic x = x ≡ panic
  Comes abort x = ⊥
  Comes fault x = ⊥

  abbrev ComesIf : {A : Type 0} → Option (Run (OnceCell T W) A) → Run (Cells T W) A → Type 0
  ComesIf none x = Unit {0}
  ComesIf (some y) x = Comes y x

  behind-Comes :
      (r : Reply T) (o : Option (Run (OnceCell T W) (List (Reply T))))
      (x : Run (Cells T W) (List (Reply T)))
      → ComesIf o x
      → ComesIf (behind r o) (and_then x λ rs u. returns (r ∷ rs) u)
  behind-Comes r none x k = tt
  behind-Comes r (some (returns rs cell)) x k = Ends-map (λ qs. r ∷ qs) x k
  behind-Comes r (some panic) x k = rw k refl
  behind-Comes r (some abort) x k = k
  behind-Comes r (some fault) x k = k

  module _ (will_wake : W → W → Bool) where
    -- The promise of a sequence of calls, which ends with the first one that panics; `none` where a
    -- call cannot be made.
    unfoldable pub foretold :
        List (Call T W) → OnceCell T W → Option (Run (OnceCell T W) (List (Reply T)))
    unfolding is_unreachable promised then_foretold
    foretold [] cell = some (returns [] cell)
    foretold (d ∷ ds) cell =
        let rest = then_foretold (foretold ds) (promised will_wake d cell) in
        if is_unreachable d cell then some panic else rest

    call-panics :
        (f : ℕ) (d : Call T W) (c : OnceCell T W) (m : Cells T W)
        → is_unreachable d c ≡ true
        → Stands c m
        → m.waiters.borrowed ≡ false
        → call will_wake f d m ≡ panic
    unfolding is_unreachable call
    call-panics f gets c m h v idle = cc
    call-panics f (sets value) c m h v idle = cc
    call-panics f (starts p cx) c m h v idle = cc
    call-panics f (polls p cx) c m h v idle = elim (Bool-cases (has p c.waiters.waiting)) [
      | inl waits ↦ let no : false ≡ true = rw waits at h in cc
      | inr out ↦ elim (Option-cases (find_done p c.waiters.done)) [
        | inl missing ↦ let no : false ≡ true = rw (out, missing) at h in cc
        | inr (o, there) ↦
            let none_leads : is_uninit c.state ≡ true = rw (out, there) at h in
            rw
              (poll-panics will_wake p cx c m o out there (is_uninit-uninit c.state none_leads) v
                idle)
              refl
      ]
    ]
    call-panics f (succeeds value) c m h v idle = cc
    call-panics f fails c m h v idle = cc
    call-panics f (drops p) c m h v idle = cc

    rest-Comes :
        (f : ℕ) (ds : List (Call T W)) (o : Option (Reply T × OnceCell T W))
        (x : Run (Cells T W) (Reply T))
        → Lands (Holds will_wake f) (length ds) o x
        → ((c : OnceCell T W) (m : Cells T W)
            → Holds will_wake f (length ds) c m
            → ComesIf (foretold ds c) (calls (call will_wake f) ds m))
        → ComesIf
            (then_foretold (foretold ds) o)
            (and_then x λ r t. and_then (calls (call will_wake f) ds t) λ rs u. returns (r ∷ rs) u)
    unfolding then_foretold
    rest-Comes f ds none x l next = tt
    rest-Comes f ds (some (r, c)) x (m, run, h) next =
        rw run (behind-Comes r (foretold ds c) (calls (call will_wake f) ds m) (next c m h))

    all-Come :
        (f : ℕ) (ds : List (Call T W)) (c : OnceCell T W) (m : Cells T W)
        → Holds will_wake f (length ds) c m
        → ComesIf (foretold ds c) (calls (call will_wake f) ds m)
    unfolding foretold calls
    all-Come f [] c m (h, v, idle) = record { after = m; run = refl; stands = v; borrowed = idle }
    all-Come f (d ∷ ds) c m h = elim (Bool-cases (is_unreachable d c)) [
      | inl bad ↦ rw (bad, call-panics f d c m bad h.1 h.2) refl
      | inr fine ↦ rw fine (
          rest-Comes f ds (promised will_wake d c) (call will_wake f d m)
            (call-Lands will_wake f (length ds) d c m h) (λ c' m' h'. all-Come f ds c' m' h'))
    ]

    -- From `OnceCell::new` on, whatever calls are made in whatever order, if each of them can be made
    -- at all, the code over the memory of the wait list does what is foretold over the queue of the
    -- promise, on as much fuel for each call as there are calls: it returns from each call what is
    -- returned there, and ends with the list not borrowed in a memory that holds the cell with that
    -- queue; or it panics, and only at the `unreachable!()`, by the poll of a future that was handed the baton
    -- while the cell is `Uninit`. So there is no other panic, no abort, no access to memory that is
    -- gone, no read of the wrong member of a union, and no second borrow of the list, although
    -- batons are dropped while it is borrowed.
    pub foretold-Comes :
        (ds : List (Call T W)) {y : Run (OnceCell T W) (List (Reply T))}
        → foretold ds new ≡ some y
        → Comes y (calls (call will_wake (length ds)) ds cells_new)
    unfolding new cells_new empty
    foretold-Comes ds e =
        subst (λ o. ComesIf o (calls (call will_wake (length ds)) ds cells_new)) e
          (all-Come (length ds) ds new cells_new
            (omega arith, new-Stands will_wake, new-idle (Unit {0}) (Unit {0}) W))
