-- ===== src/WaitList/Refine/Starts.antt =====
-- The first poll of the future `wait`, as the promise says.
use unsync.Prelude.{
  ◌≡◌, ◌≢◌, refl, ◌∙◌, Bool, true, false, none, some, List, [], ◌∷◌, ◌++◌, arith, ◌==◌, inl, inr,
  Option-cases, Option, pending,
}
use unsync.WaitList.{Ptr, Waiter, World, returns, write, wait_inner_new, wait_start}
use unsync.WaitList.Links.{
  Entry, has, has-append, has-snoc, node, Links, Links-write, write_self, write-ne,
}
use unsync.WaitList.Dequeue.{IsQueue, Relinked}
use unsync.WaitList.Enqueue.{enqueue_lem}
use unsync.WaitList.Spec.{Queue, find_done, start, repoll, update}
use unsync.WaitList.Refine.Done.{find_done-apart}
use unsync.WaitList.Refine.Polls.{inner_poll-waiting}
use unsync.WaitList.Refine.{
  AreDone, Refines, Owned, AreDone-frame, Reaches, find_done-AreDone, IsQueue-borrow, borrow-ok,
  drop_borrowed-ok,
}

module _ {I W : Type 0} where
  update-snoc :
      (f : Entry I W → Entry I W) (e : Entry I W) (es : List (Entry I W))
      → has e.ptr es ≡ false
      → update f e.ptr (es ++ (e ∷ [])) ≡ es ++ (f e ∷ [])
  unfolding update
  update-snoc f e [] h = ground arith
  update-snoc f e (x ∷ es) h = ground (arith, update-snoc f e es)

module _ {I O W : Type 0} where
  absent-Links :
      (cells : Ptr → Option (Waiter I O W)) (p : Ptr) (es : List (Entry I W)) (pv nx : Option Ptr)
      → cells p ≡ none
      → Links cells pv nx es
      → has p es ≡ false
  absent-Links cells p [] pv nx h l = refl
  absent-Links cells p (e ∷ es) pv nx h l =
      ground (arith, absent-Links cells p es (some e.ptr) nx h l.1)

  absent-AreDone :
      (p : Ptr) (es : List (Entry I W)) (s : World I O W) (ds : List (Ptr × O))
      → s.cells p ≡ none
      → AreDone es s ds
      → find_done p ds ≡ none
  absent-AreDone p es s ds h a = elim (Option-cases (find_done p ds)) [
    | inl e ↦ e
    | inr (o, e) ↦ let (d, out) = find_done-AreDone p o es s ds a e in let at = d.at in cc
  ]

  module _ (will_wake : W → W → Bool) (p : Ptr) (i : I) (cx : W) (q : Queue I O W) (s : World I O W)
      (idle : s.borrowed ≡ false) (new : s.cells p ≡ none) (r : Refines q s) (ow : Owned q s) where
    abbrev entry : Entry I W
    entry = record { ptr = p; input = i; waker = cx }

    -- The memory with the local variable `waiter`.
    abbrev placed : World I O W
    placed = record s { cells = write s.cells p (some (node none none entry)) }

    abbrev busy : World I O W
    busy = record placed { borrowed = true }

    out : has p q.waiting ≡ false
    out = absent-Links s.cells p q.waiting none none new r.queue.links

    busy-IsQueue : IsQueue q.waiting busy
    busy-IsQueue = record {
      head = r.queue.head;
      tail = r.queue.tail;
      links = Links-write s.cells p _ q.waiting none none out r.queue.links;
      distinct = r.queue.distinct;
    }

    apart : (a : Ptr) → find_done a q.done ≢ none → (a == p) ≡ false
    apart a = find_done-apart a p q.done (absent-AreDone p q.waiting s q.done new r.done)

    out-snoc :
        (a : Ptr)
        → has a q.waiting ≡ false
        → find_done a q.done ≢ none
        → has a (q.waiting ++ (entry ∷ [])) ≡ false
    out-snoc a h f = rw (has-append a q.waiting (entry ∷ []), h, apart a f)

    started-Refines :
        (t : World I O W)
        → Relinked (q.waiting ++ (entry ∷ [])) (q.waiting ++ (entry ∷ [])) busy t
        → Refines (start p i cx q) (record t { borrowed = false })
    unfolding start
    started-Refines t l = record {
      queue = IsQueue-borrow false l.queue;
      done =
          AreDone-frame q.waiting (q.waiting ++ (entry ∷ [])) s _ q.done
            (λ a h f. l.same.cells a (out-snoc a h f) ∙ write-ne s.cells p _ a (apart a f)) out-snoc
            r.done;
      woken = l.same.woken ∙ r.woken;
    }

    new-started :
        (t : World I O W) × (wait_inner_new p placed ≡ returns tt (record t { borrowed = false }))
        × Refines (start p i cx q) (record t { borrowed = false })
        × Owned (start p i cx q) (record t { borrowed = false })
    unfolding wait_inner_new start
    new-started =
        let (t, run, l) =
          enqueue_lem entry none busy (write_self s.cells p _) q.waiting busy-IsQueue out in
        (
          t,
          rw (borrow-ok placed idle, run, drop_borrowed-ok t l.same.borrowed),
          started-Refines t l,
          λ a h f.
              let (out', ne) = has-snoc a q.waiting entry h in
              l.same.cells a h ∙ write-ne s.cells p _ a ne ∙ ow a out' f,
        )

    repoll-entry : repoll will_wake cx entry ≡ entry
    unfolding repoll
    repoll-entry = ground arith

    -- The first poll of a future whose waiter has memory of its own puts it behind all others, and
    -- stays pending. It neither panics nor faults.
    pub wait_start-Reaches : Reaches pending (start p i cx q) false (wait_start will_wake p i cx s)
    unfolding wait_start start
    wait_start-Reaches =
        let (t, run, r', ow') = new-started in
        let polled =
          inner_poll-waiting will_wake p cx (start p i cx q) (record t { borrowed = false }) refl r'
            ow' (rw (has-append p q.waiting (entry ∷ [])) (ground arith)) in
        let same : update (repoll will_wake cx) p (q.waiting ++ (entry ∷ []))
            ≡ q.waiting ++ (entry ∷ []) =
          rw (update-snoc (repoll will_wake cx) entry q.waiting out, repoll-entry) in
        record {
          after = polled.after;
          run = rw (run, polled.run);
          refines = rw same at polled.refines;
          owned = rw same at polled.owned;
          borrowed = polled.borrowed;
        }
