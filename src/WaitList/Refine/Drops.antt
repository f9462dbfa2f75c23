-- ===== src/WaitList/Refine/Drops.antt =====
-- The future `wait` is dropped while it waits, as the promise says.
use unsync.Prelude.{
  ◌≡◌, refl, subst, ◌∙◌, true, false, none, some, List, ◌∷◌, ◌++◌, arith, ◌==◌, inl, inr,
  Bool-cases, Option,
}
use unsync.WaitList.{
  Ptr, State, input, output, Waiter, World, returns, wait_inner_drop, drop_waiter, drop_state,
  get_input, wait_drop,
}
use unsync.WaitList.Links.{
  Entry, first, last, has, node, Links-left, Links-right, has-append, write_self, write-ne,
  first-append, last-append, IsDistinct-apart, IsDistinct-right, IsDistinct-middle,
}
use unsync.WaitList.Relink.{load-ok}
use unsync.WaitList.Dequeue.{Between, dequeue_lem}
use unsync.WaitList.Spec.{
  Queue, find_done, find_input, find_input-absent, remove, remove_done, Split, split, drop_done,
}
use unsync.WaitList.Spec
use unsync.WaitList.Refine.Done.{
  inner_drop-done, drop_waiter-done, freed, Refines-freed, Owned-freed, remove_done-absent,
}
use unsync.WaitList.Refine.{
  Refines, Owned, AreDone-frame, Reaches, Keeps, find_done-AreDone, find_done-absent, try_borrow-ok,
  drop_borrowed-ok, IsQueue-borrow,
}

module _ {I O W : Type 0} where
  module _ (xs : List (Entry I W)) (e : Entry I W) (ys : List (Entry I W)) (ds : List (Ptr × O))
      (woken : List W) (s : World I O W) (idle : s.borrowed ≡ false)
      (r : Refines (record { waiting = xs ++ (e ∷ ys); done = ds; woken = woken }) s)
      (ow : Owned (record { waiting = xs ++ (e ∷ ys); done = ds; woken = woken }) s) where
    abbrev cell : Waiter I O W
    cell = node (last xs none) (first ys none) e

    abbrev busy : World I O W
    busy = record s { borrowed = true }

    cell-at : s.cells e.ptr ≡ some cell
    cell-at = (Links-right s.cells xs (e ∷ ys) none none r.queue.links).0

    busy-Between : Between e.ptr cell xs ys busy
    busy-Between = record {
      at = cell-at;
      next = refl;
      prev = refl;
      front = record {
        head = r.queue.head ∙ first-append xs (e ∷ ys) none;
        links = Links-left s.cells xs (e ∷ ys) none none r.queue.links;
      };
      back = record {
        tail = r.queue.tail ∙ last-append xs (e ∷ ys) none;
        links = (Links-right s.cells xs (e ∷ ys) none none r.queue.links).1;
      };
      distinct = IsDistinct-middle xs e ys r.queue.distinct;
    }

    out : has e.ptr (xs ++ ys) ≡ false
    out = ground (
      arith,
      has-append e.ptr xs ys,
      IsDistinct-apart e.ptr xs (e ∷ ys) r.queue.distinct,
      IsDistinct-right xs (e ∷ ys) r.queue.distinct,
    )

    less : (p : Ptr) → has p (xs ++ (e ∷ ys)) ≡ false → has p (xs ++ ys) ≡ false
    less p h = ground (arith, has-append p xs (e ∷ ys), has-append p xs ys)

    inner_drop-waiting :
        (t : World I O W) × (wait_inner_drop e.ptr s ≡ returns tt (record t { borrowed = false }))
        × (t.cells e.ptr ≡ some cell)
        × ((p : Ptr) → has p (xs ++ (e ∷ ys)) ≡ false → t.cells p ≡ s.cells p)
        × Refines
            (record { waiting = xs ++ ys; done = ds; woken = woken })
            (record t { borrowed = false })
    unfolding wait_inner_drop
    inner_drop-waiting =
        let (t, run, l) = dequeue_lem e.ptr cell xs ys busy busy-Between in
        (
          t,
          rw (
            try_borrow-ok s idle,
            load-ok busy cell-at,
            run,
            drop_borrowed-ok t (l.same.borrowed),
          ),
          l.same.cells e.ptr out ∙ cell-at,
          λ p h. l.same.cells p (less p h),
          record {
            queue = IsQueue-borrow false l.queue;
            done =
                AreDone-frame (xs ++ (e ∷ ys)) (xs ++ ys) s _ ds
                  (λ p h f. l.same.cells p (less p h)) (λ p h f. less p h) r.done;
            woken = l.same.woken ∙ r.woken;
          },
        )

    drop_waiter-waiting :
        (t : World I O W)
        → t.cells e.ptr ≡ some cell
        → drop_waiter e.ptr (record t { borrowed = false })
          ≡ returns (input e.input) (freed t e.ptr)
    unfolding drop_waiter drop_state get_input
    drop_waiter-waiting t at = rw (load-ok (record t { borrowed = false }) at)

    no_output : find_done e.ptr ds ≡ none
    no_output =
        find_done-absent e.ptr (xs ++ (e ∷ ys)) s ds r.done
          (ground (arith, has-append e.ptr xs (e ∷ ys)))

    freed-cells :
        (t : World I O W)
        → ((p : Ptr) → has p (xs ++ (e ∷ ys)) ≡ false → t.cells p ≡ s.cells p)
        → Owned (record { waiting = xs ++ ys; done = ds; woken = woken }) (freed t e.ptr)
    freed-cells t same p h f = elim (Bool-cases (p == e.ptr)) [
      | inl here ↦ let here' : p ≡ e.ptr = ground arith in rw here' (write_self t.cells e.ptr none)
      | inr ne ↦
          let h' : has p (xs ++ (e ∷ ys)) ≡ false =
            ground (arith, has-append p xs (e ∷ ys), has-append p xs ys) in
          write-ne t.cells e.ptr none p ne ∙ same p h' ∙ ow p h' f
    ]

    drop-waiting :
        Reaches
          (input e.input)
          (record { waiting = xs ++ ys; done = ds; woken = woken })
          false
          (wait_drop e.ptr s)
    unfolding wait_drop
    drop-waiting =
        let (t, run, at, same, r') = inner_drop-waiting in
        record {
          after = freed t e.ptr;
          run = rw (run, drop_waiter-waiting t at);
          refines = rw (remove_done-absent e.ptr ds no_output) at (
              Refines-freed (record { waiting = xs ++ ys; done = ds; woken = woken })
                (record t { borrowed = false }) e.ptr r' out);
          owned = freed-cells t same;
          borrowed = refl;
        }

  module _ (p : Ptr) (q : Queue I O W) (s : World I O W) (idle : s.borrowed ≡ false)
      (r : Refines q s) (ow : Owned q s) where
    drop-Split :
        (sp : Split p q.waiting)
        → Reaches
            (input sp.entry.input)
            (record q { waiting = remove p q.waiting })
            false
            (wait_drop p s)
    drop-Split sp =
        let r' : Refines (record q { waiting = sp.before ++ (sp.entry ∷ sp.behind) }) s =
          subst (λ es. Refines (record q { waiting = es }) s) sp.whole r in
        let ow' : Owned (record q { waiting = sp.before ++ (sp.entry ∷ sp.behind) }) s =
          subst (λ es. Owned (record q { waiting = es }) s) sp.whole ow in
        rw (sp.removed, sp.here)
          (drop-waiting sp.before sp.entry sp.behind q.done q.woken s idle r' ow')

    drop-done :
        (o : O)
        → find_done p q.done ≡ some o
        → Reaches (output o) (record q { done = remove_done p q.done }) false (wait_drop p s)
    unfolding wait_drop
    drop-done o h =
        let (d, out) = find_done-AreDone p o q.waiting s q.done r.done h in
        record {
          after = freed s p;
          run = rw (inner_drop-done s idle p o d, drop_waiter-done s idle p o d);
          refines = Refines-freed q s p r out;
          owned = Owned-freed q s p ow;
          borrowed = refl;
        }

    drop_done-Keeps :
        (o : Option O) → find_done p q.done ≡ o → Keeps (drop_done p o q) (wait_drop p s)
    unfolding drop_done
    drop_done-Keeps none h = tt
    drop_done-Keeps (some o) h = drop-done o h

    pub drop-Keeps : Keeps (Spec.drop p q) (wait_drop p s)
    unfolding Spec.drop
    drop-Keeps = elim (Bool-cases (has p q.waiting)) [
      | inl h ↦ let sp = split p q.waiting h in rw sp.found (drop-Split sp)
      | inr h ↦ rw (find_input-absent p q.waiting h) (drop_done-Keeps (find_done p q.done) refl)
    ]

    -- On a list that is linked properly and not borrowed, the drop of a future that waits or was woken
    -- takes it off the list, wherever it stands in it, and gives back what it
    -- owned: its input, or the output that it was handed. It neither panics, aborts nor faults.
    pub wait_drop-Reaches :
        {a : State I O} {q' : Queue I O W}
        → Spec.drop p q ≡ some (a, q')
        → Reaches a q' false (wait_drop p s)
    wait_drop-Reaches e = subst (λ x. Keeps x (wait_drop p s)) e drop-Keeps
