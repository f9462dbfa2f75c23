-- ===== src/WaitList/Calls/Cells.antt =====
-- What the memory of each waiter holds: which member of the union `State` is the one to read.
use unsync.Prelude.{
  ◌≡◌, refl, Bool, true, false, Option, none, some, List, [], ◌∷◌, arith, inl, inr, Bool-cases,
  Option-cases, returns, ◌==◌,
}
use unsync.WaitList.{Ptr, input, output, Waiter, World, new}
use unsync.WaitList.Links.{Entry, Links, has, node, first}
use unsync.WaitList.Spec.{Queue, empty, find_input, find_done}
use unsync.WaitList.Refine.{Refines, Owned, find_done-AreDone, find_done-absent}
use unsync.Prelude.Histories.{calls, promises}
use unsync.WaitList.Calls.{Call, Reply, call, promised}
use unsync.WaitList.Calls.Total.{calls-Reaches}

module _ {I O W : Type 0} where
  -- The memory at an address where a future waits holds its input, and where one was woken the output
  -- that it was handed; elsewhere there is no waiter.
  pub data CellOf (q : Queue I O W) (p : Ptr) (c : Option (Waiter I O W)) : Type 0 where
    linked :
        (i : I) (w : Waiter I O W)
        → find_input p q.waiting ≡ some i
        → find_done p q.done ≡ none
        → c ≡ some w
        → w.state ≡ input i
        → CellOf q p c
    handed :
        (o : O) (w : Waiter I O W)
        → has p q.waiting ≡ false
        → find_done p q.done ≡ some o
        → c ≡ some w
        → w.state ≡ output o
        → CellOf q p c
    free : has p q.waiting ≡ false → find_done p q.done ≡ none → c ≡ none → CellOf q p c

  Links-input :
      (p : Ptr) (es : List (Entry I W)) (cells : Ptr → Option (Waiter I O W)) (pv nx : Option Ptr)
      → Links cells pv nx es
      → has p es ≡ true
      → (i : I) × (w : Waiter I O W) × (find_input p es ≡ some i)
        × (cells p ≡ some w)
        × (w.state ≡ input i)
  unfolding find_input
  Links-input p [] cells pv nx l h = cc
  Links-input p (e ∷ es) cells pv nx l h = elim (Bool-cases (p == e.ptr)) [
    | inl here ↦
        let same : p ≡ e.ptr = ground arith in
        (e.input, node pv (first es nx) e, rw here refl, rw same (l.0), refl)
    | inr other ↦
        let (i, w, f, c, s) = Links-input p es cells (some e.ptr) nx (l.1) (ground arith) in
        (i, w, rw other f, c, s)
  ]

  CellOf-Refines :
      (q : Queue I O W) (s : World I O W) (p : Ptr)
      → Refines q s
      → Owned q s
      → CellOf q p (s.cells p)
  CellOf-Refines q s p r ow = elim (Bool-cases (has p q.waiting)) [
    | inl here ↦
        let (i, w, f, c, e) = Links-input p q.waiting s.cells none none r.queue.links here in
        linked i w f (find_done-absent p q.waiting s q.done r.done here) c e
    | inr out ↦ elim (Option-cases (find_done p q.done)) [
      | inl new ↦ free out new (ow p out new)
      | inr (o, e) ↦
          let (d, _) = find_done-AreDone p o q.waiting s q.done r.done e in
          handed o d.cell out e d.at d.state
    ]
  ]

  -- From `WaitList::new` on, after any calls that can be made at all, and at any address: the
  -- memory of a future that waits holds its input, that of one that was woken and has not ended the
  -- output that it was handed, so that the code knows which member of the union is there from
  -- whether the waiter is in the list; and elsewhere there is no waiter.
  pub calls-CellOf :
      (will_wake : W → W → Bool) (cs : List (Call I O W)) {rs : List (Reply I O)} {q : Queue I O W}
      → promises (promised will_wake) cs empty ≡ some (rs, q)
      → (p : Ptr)
      → (s : World I O W) × (calls (call will_wake) cs new ≡ returns rs s) × CellOf q p (s.cells p)
  calls-CellOf will_wake cs e p =
      let k = calls-Reaches will_wake cs e in
      (k.after, k.run, CellOf-Refines _ k.after p k.refines k.owned)
