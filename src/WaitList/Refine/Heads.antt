-- ===== src/WaitList/Refine/Heads.antt =====
-- The input of the oldest waiter, read and changed, as the promise says.
use unsync.Prelude.{◌≡◌, refl, sym, subst, ◌∙◌, none, some, List, [], ◌∷◌, is_some, arith}
use unsync.WaitList.{
  World, returns, write, head_input, head_input_at, head_input_mut, head_input_mut_at, get_input,
}
use unsync.WaitList.Links.{Entry, Links, first, node, Links-write, write_self, write-ne}
use unsync.WaitList.Relink.{load-ok}
use unsync.WaitList.Dequeue.{IsQueue}
use unsync.WaitList.Spec.{Queue, find_done}
use unsync.WaitList.Spec
use unsync.WaitList.Refine.{Refines, Owned, AreDone-frame, Reaches}

module _ {I W : Type 0} where
  abbrev changed : (I → I) → Entry I W → Entry I W
  changed f e = record e { input = f e.input }

  is_some-first : (es : List (Entry I W)) → is_some (first es none) ≡ is_some (Spec.head_input es)
  unfolding Spec.head_input
  is_some-first [] = refl
  is_some-first (e ∷ es) = refl

module _ {I O W : Type 0} where
  head_input-first :
      (es : List (Entry I W)) (s : World I O W)
      → Links s.cells none none es
      → head_input_at (first es none) s ≡ returns (Spec.head_input es) s
  unfolding head_input_at Spec.head_input get_input
  head_input-first [] s l = refl
  head_input-first (e ∷ es) s l = rw (load-ok s l.0)

  pub head_input-Reaches :
      (q : Queue I O W) (s : World I O W)
      → Refines q s
      → Owned q s
      → Reaches (Spec.head_input q.waiting) q s.borrowed (head_input s)
  unfolding head_input
  head_input-Reaches q s r ow = record {
    after = s;
    run =
        subst (λ h. head_input_at h s ≡ returns (Spec.head_input q.waiting) s) (sym r.queue.head)
          (head_input-first q.waiting s r.queue.links);
    refines = r;
    owned = ow;
    borrowed = refl;
  }

  -- What `is_empty` tests.
  pub head-waits :
      (q : Queue I O W) (s : World I O W)
      → Refines q s
      → is_some s.inner.head ≡ is_some (Spec.head_input q.waiting)
  head-waits q s r = rw (r.queue.head) (is_some-first q.waiting)

  module _ (f : I → I) where
    abbrev stored : Entry I W → List (Entry I W) → World I O W → World I O W
    stored e es s = record s {
      cells = write s.cells e.ptr (some (node none (first es none) (changed f e)));
    }

    IsQueue-changed :
        (e : Entry I W) (es : List (Entry I W)) (s : World I O W)
        → IsQueue (e ∷ es) s
        → IsQueue (changed f e ∷ es) (stored e es s)
    IsQueue-changed e es s q = record {
      head = q.head;
      tail = q.tail;
      links = (
        write_self s.cells e.ptr _,
        Links-write s.cells e.ptr _ es (some e.ptr) none q.distinct.0 q.links.1,
      );
      distinct = q.distinct;
    }

    head_input_mut-cases :
        (es : List (Entry I W)) (q : Queue I O W) (s : World I O W)
        → Refines (record q { waiting = es }) s
        → Owned (record q { waiting = es }) s
        → Reaches
            (Spec.head_input es)
            (record q { waiting = Spec.change_head f es })
            s.borrowed
            (head_input_mut_at f (first es none) s)
    unfolding head_input_mut_at Spec.head_input Spec.change_head get_input
    head_input_mut-cases [] q s r ow = record {
      after = s;
      run = refl;
      refines = r;
      owned = ow;
      borrowed = refl;
    }
    head_input_mut-cases (e ∷ es) q s r ow = record {
      after = stored e es s;
      run = rw (load-ok s r.queue.links.0);
      refines = record {
        queue = IsQueue-changed e es s r.queue;
        done =
            AreDone-frame (e ∷ es) (changed f e ∷ es) s _ q.done
              (λ p h d. write-ne s.cells e.ptr _ p (ground arith)) (λ p h d. h) r.done;
        woken = r.woken;
      };
      owned = λ p h d. write-ne s.cells e.ptr _ p (ground arith) ∙ ow p h d;
      borrowed = refl;
    }

    pub head_input_mut-Reaches :
        (q : Queue I O W) (s : World I O W)
        → Refines q s
        → Owned q s
        → Reaches
            (Spec.head_input q.waiting)
            (record q { waiting = Spec.change_head f q.waiting })
            s.borrowed
            (head_input_mut f s)
    unfolding head_input_mut
    head_input_mut-Reaches q s r ow =
        subst
          (λ h.
            Reaches (Spec.head_input q.waiting)
              (record q { waiting = Spec.change_head f q.waiting }) s.borrowed
              (head_input_mut_at f h s))
          (sym r.queue.head) (head_input_mut-cases q.waiting q s r ow)
