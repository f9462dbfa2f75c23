-- ===== src/WaitList/Dequeue.antt =====
-- `Inner::dequeue` on a list that is linked properly.
use unsync.Prelude.{◌≡◌, ◌∙◌, true, Option, none, some, List, ◌++◌, arith}
use unsync.WaitList.{Ptr, Waiter, World, returns, ptr_eq, dequeue}
use unsync.WaitList.Links.{
  Entry, first, last, IsDistinct, first-append, last-append, has-append, IsDistinct-left,
  IsDistinct-right, IsDistinct-apart, Links, Links-append, Links-frame,
}
use unsync.WaitList.Relink.{Same, Front, Back, load-ok, CutFront, cut_front, CutBack, cut_back}

ptr_eq_self : (p : Ptr) → ptr_eq (some p) (some p) ≡ true
ptr_eq_self p = ground arith

module _ {I O W : Type 0} where
  -- `head` and `tail` are the ends of a doubly linked list of the waiters of `es`, all distinct.
  pub record IsQueue (es : List (Entry I W)) (s : World I O W) : Type 0 where
    pub head : s.inner.head ≡ first es none
    pub tail : s.inner.tail ≡ last es none
    pub links : Links s.cells none none es
    pub distinct : IsDistinct es

  -- The waiter at `p` stands between `xs` and `ys`, whatever its state and waker are.
  pub record Between (p : Ptr) (w : Waiter I O W) (xs ys : List (Entry I W)) (s : World I O W)
      : Type 0 where
    pub at : s.cells p ≡ some w
    pub next : w.next ≡ first ys none
    pub prev : w.prev ≡ last xs none
    pub front : Front (some p) xs s
    pub back : Back (some p) ys s
    pub distinct : IsDistinct (xs ++ ys)

  Front-Same :
      {s t : World I O W} (nx : Option Ptr) (xs ys : List (Entry I W))
      → IsDistinct (xs ++ ys)
      → Same ys s t
      → t.inner.head ≡ s.inner.head
      → Front nx xs s
      → Front nx xs t
  Front-Same {s} {t} nx xs ys d same h f = record {
    head = h ∙ f.head;
    links =
        Links-frame s.cells t.cells xs none nx
          (λ p i. same.cells p (ground (arith, IsDistinct-apart p xs ys d))) f.links;
  }

  Back-Same :
      {s t : World I O W} (pv : Option Ptr) (xs ys : List (Entry I W))
      → IsDistinct (xs ++ ys)
      → Same xs s t
      → t.inner.tail ≡ s.inner.tail
      → Back pv ys s
      → Back pv ys t
  Back-Same {s} {t} pv xs ys d same h b = record {
    tail = h ∙ b.tail;
    links =
        Links-frame s.cells t.cells ys pv none (λ p i. same.cells p (IsDistinct-apart p xs ys d i))
          b.links;
  }

  Same-trans :
      {s t u : World I O W} (xs ys : List (Entry I W))
      → Same xs s t
      → Same ys t u
      → Same (xs ++ ys) s u
  Same-trans xs ys f g = record {
    cells = λ p h.
        g.cells p (ground (arith, has-append p xs ys))
        ∙ f.cells p (ground (arith, has-append p xs ys));
    borrowed = g.borrowed ∙ f.borrowed;
    woken = g.woken ∙ f.woken;
  }

  -- A run of `dequeue` or `enqueue` that returns: the list after it, and what it leaves alone.
  pub record Relinked (es touched : List (Entry I W)) (s t : World I O W) : Type 0 where
    pub queue : IsQueue es t
    pub same : Same touched s t

  module _ (p : Ptr) (w : Waiter I O W) (xs ys : List (Entry I W)) (s : World I O W)
      (b : Between p w xs ys s) where
    cut : CutFront s (some p) (first ys none) xs
    cut = cut_front s (some p) (first ys none) xs (IsDistinct-left xs ys b.distinct) b.front

    cut' : CutBack cut.after (some p) (last xs none) ys
    cut' =
        cut_back cut.after (some p) (last xs none) ys (IsDistinct-right xs ys b.distinct)
          (Back-Same (some p) xs ys b.distinct cut.same cut.tail b.back)

    dequeue-returns : dequeue p s ≡ returns tt cut'.after
    unfolding dequeue
    dequeue-returns = rw (
      load-ok s b.at,
      b.prev,
      b.next,
      cut.read,
      ptr_eq_self p,
      cut.wrote,
      cut'.read,
      ptr_eq_self p,
      cut'.wrote,
    )

    dequeue-Relinked : Relinked (xs ++ ys) (xs ++ ys) s cut'.after
    dequeue-Relinked =
        let f = Front-Same (first ys none) xs ys b.distinct cut'.same cut'.head cut.front in
        record {
          queue = record {
            head = rw (first-append xs ys none) f.head;
            tail = rw (last-append xs ys none) cut'.back.tail;
            links = Links-append _ xs ys none none f.links cut'.back.links;
            distinct = b.distinct;
          };
          same = Same-trans xs ys cut.same cut'.same;
        }

    -- `dequeue` takes the waiter out, links its neighbours, and touches no other waiter.
    pub dequeue_lem :
        (t : World I O W) × (dequeue p s ≡ returns tt t) × Relinked (xs ++ ys) (xs ++ ys) s t
    dequeue_lem = (cut'.after, dequeue-returns, dequeue-Relinked)
