-- ===== src/WaitList/Refine.antt =====
-- The relation between the pointers and the promise of WaitList/Spec.antt, and its upkeep.
pub mod Wake
pub mod Heads
mod Done
pub mod Polls
pub mod Drops
pub mod Starts
use unsync.Prelude.{
  ◌≡◌, ◌≢◌, refl, ap, ◌∙◌, Bool, true, false, Option, none, some, List, [], ◌∷◌, ◌++◌, arith, ◌==◌,
  inl, inr, Bool-cases, Option-cases, if◌then◌else◌,
}
use unsync.WaitList.{
  Ptr, State, output, Waiter, World, Run, returns, load, write, borrow, drop_borrowed, try_borrow,
}
use unsync.WaitList.Links.{Entry, has, Links-write, write-ne}
use unsync.WaitList.Relink.{load-ok}
use unsync.WaitList.Dequeue.{IsQueue}
use unsync.WaitList.Spec.{Queue, find_done, remove_done}

module _ {I O W : Type 0} where
  -- The waiter at `p` has been woken with the output `o`.
  pub record IsDone (p : Ptr) (o : O) (s : World I O W) : Type 0 where
    pub cell : Waiter I O W
    pub at : s.cells p ≡ some cell
    pub state : cell.state ≡ output o
    pub waker : cell.waker ≡ none

  -- All of `ds` are woken waiters, distinct and none of them among `es`.
  abbrev pub AreDone : List (Entry I W) → World I O W → List (Ptr × O) → Type 0
  AreDone es s [] = Unit {0}
  AreDone es s ((p, o) ∷ ds) =
      IsDone p o s × (has p es ≡ false) × (find_done p ds ≡ none) × AreDone es s ds

  -- The memory `s` holds the wait list `q`.
  pub record Refines (q : Queue I O W) (s : World I O W) : Type 0 where
    pub queue : IsQueue q.waiting s
    pub done : AreDone q.waiting s q.done
    pub woken : s.woken ≡ q.woken

  -- Woken waiters are spared by a change to the waiters of `es`, if nothing new is in the list.
  pub AreDone-frame :
      (es es' : List (Entry I W)) (s t : World I O W) (ds : List (Ptr × O))
      → ((p : Ptr) → has p es ≡ false → find_done p ds ≢ none → t.cells p ≡ s.cells p)
      → ((p : Ptr) → has p es ≡ false → find_done p ds ≢ none → has p es' ≡ false)
      → AreDone es s ds
      → AreDone es' t ds
  unfolding find_done
  AreDone-frame es es' s t [] same less a = tt
  AreDone-frame es es' s t ((p, o) ∷ ds) same less (d, out, new, rest) = (
    record {
      cell = d.cell;
      at = same p out (ground arith) ∙ d.at;
      state = d.state;
      waker = d.waker;
    },
    less p out (ground arith),
    new,
    AreDone-frame es es' s t ds (λ a h f. same a h (ground arith))
        (λ a h f. less a h (ground arith)) rest,
  )

  pub find_done-AreDone :
      (p : Ptr) (o : O) (es : List (Entry I W)) (s : World I O W) (ds : List (Ptr × O))
      → AreDone es s ds
      → find_done p ds ≡ some o
      → IsDone p o s × (has p es ≡ false)
  unfolding find_done
  find_done-AreDone p o es s [] a h = cc
  find_done-AreDone p o es s ((q, r) ∷ ds) (d, out, new, rest) h = elim (Bool-cases (p == q)) [
    | inl here ↦
        let same : p ≡ q = ground arith in
        let out' : o ≡ r = ground arith in rw (same, out') (d, out)
    | inr other ↦ find_done-AreDone p o es s ds rest (rw other at h)
  ]

  -- What waits has not been woken.
  pub find_done-absent :
      (p : Ptr) (es : List (Entry I W)) (s : World I O W) (ds : List (Ptr × O))
      → AreDone es s ds
      → has p es ≡ true
      → find_done p ds ≡ none
  find_done-absent p es s ds a h = elim (Option-cases (find_done p ds)) [
    | inl e ↦ e
    | inr (o, e) ↦ let (d, out) = find_done-AreDone p o es s ds a e in cc
  ]

  pub IsQueue-borrow :
      {es : List (Entry I W)} {s : World I O W} (b : Bool)
      → IsQueue es s
      → IsQueue es (record s { borrowed = b })
  IsQueue-borrow b q = record {
    head = q.head;
    tail = q.tail;
    links = q.links;
    distinct = q.distinct;
  }

  -- The flag `borrowed` is no part of the list.
  pub Refines-borrow :
      {q : Queue I O W} {s : World I O W} (b : Bool)
      → Refines q s
      → Refines q (record s { borrowed = b })
  Refines-borrow {q} {s} b r = record {
    queue = IsQueue-borrow b r.queue;
    done = AreDone-frame q.waiting q.waiting s _ q.done (λ p h f. refl) (λ p h f. h) r.done;
    woken = r.woken;
  }

  -- No memory is kept but that of the futures that wait or were woken.
  abbrev pub Owned : Queue I O W → World I O W → Type 0
  Owned q s = (p : Ptr) → has p q.waiting ≡ false → find_done p q.done ≡ none → s.cells p ≡ none

  -- A run that returns `a`, in a memory that holds `q`, with the flag `borrowed` at `b`.
  pub record Reaches {A : Type 0} (a : A) (q : Queue I O W) (b : Bool) (m : Run (World I O W) A)
      : Type 0 where
    pub after : World I O W
    pub run : m ≡ returns a after
    pub refines : Refines q after
    pub owned : Owned q after
    pub borrowed : after.borrowed ≡ b

  -- The run does what the promise says, where it says anything.
  abbrev pub Keeps : {A : Type 0} → Option (A × Queue I O W) → Run (World I O W) A → Type 0
  Keeps none m = Unit {0}
  Keeps (some (a, q)) m = Reaches a q false m

  module _ (s : World I O W) where
    pub borrow-ok : s.borrowed ≡ false → borrow s ≡ returns tt (record s { borrowed = true })
    unfolding borrow
    borrow-ok idle = simp idle

    pub try_borrow-ok :
        s.borrowed ≡ false → try_borrow s ≡ returns true (record s { borrowed = true })
    unfolding try_borrow
    try_borrow-ok idle = simp idle

    pub drop_borrowed-ok :
        s.borrowed ≡ true → drop_borrowed s ≡ returns tt (record s { borrowed = false })
    unfolding drop_borrowed
    drop_borrowed-ok busy = simp busy
