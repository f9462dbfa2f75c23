-- ===== src/WaitList/Refine/Wake.antt =====
-- `Borrowed::wake_one` hands its output to the oldest waiter, as the promise says.
use unsync.Prelude.{◌≡◌, refl, sym, subst, ap, ◌∙◌, false, none, some, List, [], ◌∷◌, arith, ok}
use unsync.WaitList.{Ptr, output, Waiter, World, returns, write, wake_one, wake_at}
use unsync.WaitList.Links.{Entry, first, has, node, Links-write, write_self, write-ne}
use unsync.WaitList.Relink.{load-ok}
use unsync.WaitList.Dequeue.{IsQueue, Between, dequeue_lem, Relinked}
use unsync.WaitList.Spec.{find_done, Queue, find_done}
use unsync.WaitList.Spec
use unsync.WaitList.Refine.{
  IsDone, AreDone, Refines, Owned, AreDone-frame, find_done-absent, Reaches,
}

module _ {I O W : Type 0} where
  -- The oldest waiter after its state and its waker were replaced.
  abbrev handed : Entry I W → List (Entry I W) → O → Waiter I O W
  handed e es o = record (node none (first es none) e) { state = output o; waker = none }

  module _ (e : Entry I W) (es : List (Entry I W)) (o : O) (s : World I O W)
      (q : IsQueue (e ∷ es) s) where
    abbrev stored : World I O W
    stored = record s { cells = write s.cells e.ptr (some (handed e es o)) }

    stored-Between : Between e.ptr (handed e es o) [] es stored
    stored-Between = record {
      at = write_self s.cells e.ptr _;
      next = refl;
      prev = refl;
      front = record { head = q.head; links = tt };
      back = record {
        tail = q.tail;
        links = Links-write s.cells e.ptr _ es (some e.ptr) none q.distinct.0 q.links.1;
      };
      distinct = q.distinct.1;
    }

    -- The run, and the world after it.
    wake_at-returns :
        (t : World I O W) × (wake_at (some e.ptr) o s
          ≡ returns (ok e.input) (record t { woken = e.waker ∷ t.woken }))
        × Relinked es es stored t
    unfolding wake_at
    wake_at-returns =
        let (t, run, r) = dequeue_lem e.ptr (handed e es o) [] es stored stored-Between in
        (t, rw (load-ok s q.links.0, run), r)

    handed-IsDone :
        (t : World I O W) (woken : List W)
        → Relinked es es stored t
        → IsDone e.ptr o (record t { woken = woken })
    handed-IsDone t woken r = record {
      cell = handed e es o;
      at = r.same.cells e.ptr q.distinct.0 ∙ write_self s.cells e.ptr _;
      state = refl;
      waker = refl;
    }

    -- A waiter that is not in the list is as before.
    spared :
        (t : World I O W)
        → Relinked es es stored t
        → (p : Ptr) → has p (e ∷ es) ≡ false
        → t.cells p ≡ s.cells p
    spared t r p h = r.same.cells p (ground arith) ∙ write-ne s.cells e.ptr _ p (ground arith)

    not_handed :
        (p : Ptr) (ds : List (Ptr × O))
        → has p es ≡ false
        → find_done p ((e.ptr, o) ∷ ds) ≡ none
        → (has p (e ∷ es) ≡ false) × (find_done p ds ≡ none)
    unfolding find_done
    not_handed p ds h f = ground arith

    wake_front-Reaches :
        (ds : List (Ptr × O)) (woken : List W)
        → AreDone (e ∷ es) s ds
        → s.woken ≡ woken
        → Owned (record { waiting = e ∷ es; done = ds; woken = woken }) s
        → Reaches
            (ok e.input)
            (record { waiting = es; done = (e.ptr, o) ∷ ds; woken = e.waker ∷ woken })
            s.borrowed
            (wake_at (some e.ptr) o s)
    wake_front-Reaches ds woken a log ow =
        let (t, run, r) = wake_at-returns in
        record {
          after = record t { woken = e.waker ∷ t.woken };
          run = run;
          refines = record {
            queue = record {
              head = r.queue.head;
              tail = r.queue.tail;
              links = r.queue.links;
              distinct = r.queue.distinct;
            };
            done = (
              handed-IsDone t (e.waker ∷ t.woken) r,
              q.distinct.0,
              find_done-absent e.ptr (e ∷ es) s ds a (ground arith),
              AreDone-frame (e ∷ es) es s (record t { woken = e.waker ∷ t.woken }) ds
                  (λ p h f. spared t r p h) (λ p h f. ground arith) a,
            );
            woken = ap (◌∷◌ e.waker) (r.same.woken ∙ log);
          };
          owned = λ p h f. let (out, f') = not_handed p ds h f in spared t r p out ∙ ow p out f';
          borrowed = r.same.borrowed;
        }

  wake_one-cases :
      (es : List (Entry I W)) (ds : List (Ptr × O)) (woken : List W) (o : O) (s : World I O W)
      → Refines (record { waiting = es; done = ds; woken = woken }) s
      → Owned (record { waiting = es; done = ds; woken = woken }) s
      → let (r, q) = Spec.wake_front es o (record { waiting = es; done = ds; woken = woken }) in
        Reaches r q s.borrowed (wake_at (first es none) o s)
  unfolding Spec.wake_front wake_at
  wake_one-cases [] ds woken o s r ow = record {
    after = s;
    run = refl;
    refines = r;
    owned = ow;
    borrowed = refl;
  }
  wake_one-cases (e ∷ es) ds woken o s r ow =
      wake_front-Reaches e es o s r.queue ds woken r.done r.woken ow

  -- `wake_one` on a list that is linked properly takes the oldest waiter out, gives its input back,
  -- leaves the output with it and wakes its task; on an empty list it gives the output back. It
  -- neither panics nor faults, and does not touch the flag `borrowed`.
  pub wake_one-Reaches :
      (o : O) (q : Queue I O W) (s : World I O W)
      → Refines q s
      → Owned q s
      → let (r, q') = Spec.wake_one o q in Reaches r q' s.borrowed (wake_one o s)
  unfolding Spec.wake_one wake_one
  wake_one-Reaches o q s r ow =
      subst
        (λ h.
          let (a, q') = Spec.wake_front q.waiting o q in Reaches a q' s.borrowed (wake_at h o s))
        (sym r.queue.head) (wake_one-cases q.waiting q.done q.woken o s r ow)
