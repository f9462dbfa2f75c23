-- ===== src/WaitList/Refine/Polls.antt =====
-- The polls of the future `wait`, as the promise says.
mod Entries
use unsync.Prelude.{
  ◌≡◌, refl, sym, subst, ap, ◌∙◌, Bool, true, false, none, some, List, [], ◌∷◌, ◌++◌, arith, ◌==◌,
  inl, inr, Bool-cases, Poll, ready, pending, if◌then◌else◌, Option,
}
use unsync.WaitList.{
  Ptr, input, output, Waiter, World, returns, and_then, write, wait_inner_poll, update_waker, store,
  free, take_output, wait_poll, wait_resume,
}
use unsync.WaitList.Links.{
  Entry, first, last, has, node, Links, Links-write, Links-right, write_self, write-ne, has-append,
}
use unsync.WaitList.Relink.{load-ok}
use unsync.WaitList.Dequeue.{IsQueue}
use unsync.WaitList.Spec.{Queue, find_done, remove_done, repoll, update, take_done, Split, split}
use unsync.WaitList.Spec
use unsync.WaitList.Refine.Done.{
  inner_poll-done, inner_drop-done, IsDone-rested, take_output-done, freed, Refines-freed,
  Owned-freed, Owned-freed,
}
use unsync.WaitList.Refine.{
  find_done-AreDone, Keeps, IsDone, AreDone, Refines, Owned, IsQueue-borrow, AreDone-frame, Reaches,
  Refines-borrow, borrow-ok, drop_borrowed-ok,
}
use Entries.{renew, IsQueue-repoll, has-repoll}

module _ {I O W : Type 0} where
  module _ (will_wake : W → W → Bool) (cx : W) (xs : List (Entry I W)) (e : Entry I W)
      (ys : List (Entry I W)) (ds : List (Ptr × O)) (woken : List W) (s : World I O W)
      (idle : s.borrowed ≡ false)
      (r : Refines (record { waiting = xs ++ (e ∷ ys); done = ds; woken = woken }) s)
      (ow : Owned (record { waiting = xs ++ (e ∷ ys); done = ds; woken = woken }) s) where
    node-at : s.cells e.ptr ≡ some (node (last xs none) (first ys none) e)
    node-at = (Links-right s.cells xs (e ∷ ys) none none r.queue.links).0

    abbrev busy : World I O W
    busy = record s { borrowed = true }

    -- `will_wake` says that the waker is good: nothing changes.
    inner_poll-same :
        will_wake e.waker cx ≡ true
        → Reaches pending
            (record { waiting = xs ++ (e ∷ ys); done = ds; woken = woken })
            false
            (wait_inner_poll will_wake e.ptr cx s)
    unfolding wait_inner_poll update_waker
    inner_poll-same same = record {
      after = record s { borrowed = false };
      run = rw (borrow-ok s idle, load-ok busy node-at, same);
      refines = Refines-borrow false r;
      owned = ow;
      borrowed = refl;
    }

    inner_poll-new :
        will_wake e.waker cx ≡ false
        → Reaches pending
            (record { waiting = xs ++ (renew cx e ∷ ys); done = ds; woken = woken })
            false
            (wait_inner_poll will_wake e.ptr cx s)
    unfolding wait_inner_poll update_waker
    inner_poll-new other = record {
      after = record s {
        borrowed = false;
        cells = write s.cells e.ptr (some (node (last xs none) (first ys none) (renew cx e)));
      };
      run = rw (borrow-ok s idle, load-ok busy node-at, other);
      refines = record {
        queue = IsQueue-borrow false (IsQueue-repoll cx e ys xs s r.queue);
        done =
            AreDone-frame (xs ++ (e ∷ ys)) (xs ++ (renew cx e ∷ ys)) s _ ds
              (λ p h f. write-ne s.cells e.ptr _ p (ground (arith, has-append p xs (e ∷ ys))))
              (λ p h f. has-repoll cx e ys p xs ∙ h) r.done;
        woken = r.woken;
      };
      owned = λ p h f.
          let h' : has p (xs ++ (e ∷ ys)) ≡ false = sym (has-repoll cx e ys p xs) ∙ h in
          write-ne s.cells e.ptr _ p (ground (arith, has-append p xs (e ∷ ys))) ∙ ow p h' f;
      borrowed = refl;
    }

    inner_poll-repoll :
        Reaches pending
          (record { waiting = xs ++ (repoll will_wake cx e ∷ ys); done = ds; woken = woken })
          false
          (wait_inner_poll will_wake e.ptr cx s)
    unfolding repoll
    inner_poll-repoll = elim (Bool-cases (will_wake e.waker cx)) [
      | inl same ↦ rw same (inner_poll-same same)
      | inr other ↦ rw other (inner_poll-new other)
    ]

  module _ (will_wake : W → W → Bool) (p : Ptr) (cx : W) (q : Queue I O W) (s : World I O W)
      (idle : s.borrowed ≡ false) (r : Refines q s) (ow : Owned q s) where
    pub inner_poll-waiting :
        has p q.waiting ≡ true
        → Reaches pending
            (record q { waiting = update (repoll will_wake cx) p q.waiting })
            false
            (wait_inner_poll will_wake p cx s)
    inner_poll-waiting h =
        let sp = split p q.waiting h in
        let r' : Refines (record q { waiting = sp.before ++ (sp.entry ∷ sp.behind) }) s =
          subst (λ es. Refines (record q { waiting = es }) s) sp.whole r in
        let ow' : Owned (record q { waiting = sp.before ++ (sp.entry ∷ sp.behind) }) s =
          subst (λ es. Owned (record q { waiting = es }) s) sp.whole ow in
        rw (sp.updated (repoll will_wake cx), sp.here)
          (inner_poll-repoll will_wake cx sp.before sp.entry sp.behind q.done q.woken s idle r' ow')

    poll-waiting :
        has p q.waiting ≡ true
        → Reaches pending
            (record q { waiting = update (repoll will_wake cx) p q.waiting })
            false
            (wait_poll will_wake p cx s)
    unfolding wait_poll
    poll-waiting h =
        let m = inner_poll-waiting h in
        record {
          after = m.after;
          run = rw m.run;
          refines = m.refines;
          owned = m.owned;
          borrowed = m.borrowed;
        }

    poll-done :
        (o : O)
        → find_done p q.done ≡ some o
        → Reaches
            (ready o)
            (record q { done = remove_done p q.done })
            false
            (wait_poll will_wake p cx s)
    unfolding wait_poll
    poll-done o h =
        let (d, out) = find_done-AreDone p o q.waiting s q.done r.done h in
        record {
          after = freed s p;
          run = rw (
            inner_poll-done s idle p o d will_wake cx,
            inner_drop-done (record s { borrowed = false }) refl p o (IsDone-rested s idle p o d),
            take_output-done s idle p o d,
          );
          refines = Refines-freed q s p r out;
          owned = Owned-freed q s p ow;
          borrowed = refl;
        }

    poll-take_done :
        has p q.waiting ≡ false
        → (o : Option O) → find_done p q.done ≡ o
        → Keeps (take_done p o q) (wait_poll will_wake p cx s)
    unfolding take_done
    poll-take_done out none h = tt
    poll-take_done out (some o) h = poll-done o h

    pub poll-Keeps : Keeps (Spec.poll will_wake p cx q) (wait_poll will_wake p cx s)
    unfolding Spec.poll
    poll-Keeps = elim (Bool-cases (has p q.waiting)) [
      | inl h ↦ rw h (poll-waiting h)
      | inr h ↦ rw h (poll-take_done h (find_done p q.done) refl)
    ]

    -- On a list that is linked properly and not borrowed, a poll of a future that waits or was woken
    -- does what is promised: it stays pending and has
    -- its waker updated, or is ready with the output that it was handed. It neither panics nor
    -- faults.
    pub wait_poll-Reaches :
        {a : Poll O} {q' : Queue I O W}
        → Spec.poll will_wake p cx q ≡ some (a, q')
        → Reaches a q' false (wait_poll will_wake p cx s)
    wait_poll-Reaches e = subst (λ x. Keeps x (wait_poll will_wake p cx s)) e poll-Keeps
