-- ===== src/WaitList/Relink.antt =====
-- The two writes of `dequeue` and the one of `enqueue`: cutting a segment off, and ending it anew.
use unsync.Prelude.{◌≡◌, refl, ap, inl, inr, false, Option, none, some, List, [], ◌∷◌, ◌++◌, arith}
use unsync.WaitList.{
  Ptr, Waiter, World, returns, load, store, write, read_next, write_next, read_prev, write_prev,
}
use unsync.WaitList.Links.{
  Entry, first, last, has, IsDistinct, first-append, last-append, snoc-cases, IsDistinct-apart,
  node, Links, Links-left, Links-right, Links-append, Links-write, has-append,
}

module _ {I O W : Type 0} where
  -- `t` differs from `s` at most in `inner` and in the waiters of `xs`.
  pub record Same (xs : List (Entry I W)) (s t : World I O W) : Type 0 where
    pub cells : (p : Ptr) → has p xs ≡ false → t.cells p ≡ s.cells p
    pub borrowed : t.borrowed ≡ s.borrowed
    pub woken : t.woken ≡ s.woken

  -- What the list looks like from the front: `head`, then the waiters of `xs`, then `nx`.
  pub record Front (nx : Option Ptr) (xs : List (Entry I W)) (s : World I O W) : Type 0 where
    pub head : s.inner.head ≡ first xs nx
    pub links : Links s.cells none nx xs

  -- From the back: `pv`, then the waiters of `ys`, then `tail`.
  pub record Back (pv : Option Ptr) (ys : List (Entry I W)) (s : World I O W) : Type 0 where
    pub tail : s.inner.tail ≡ last ys pv
    pub links : Links s.cells pv none ys

  pub load-ok :
      {p : Ptr} {w : Waiter I O W} (s : World I O W) → s.cells p ≡ some w → load p s ≡ returns w s
  unfolding load
  load-ok s h = rw (h, load)

  abbrev end_at : World I O W → Option Ptr → List (Entry I W) → Entry I W → World I O W
  end_at s v xs e = record s { cells = write s.cells e.ptr (some (node (last xs none) v e)) }

  module _ (s : World I O W) (nx v : Option Ptr) (xs : List (Entry I W)) (e : Entry I W)
      (d : IsDistinct (xs ++ (e ∷ []))) (f : Front nx (xs ++ (e ∷ [])) s) where
    last-node : s.cells e.ptr ≡ some (node (last xs none) nx e)
    last-node = (Links-right s.cells xs (e ∷ []) none nx f.links).0

    read_next-snoc : read_next (some e.ptr) s ≡ returns nx s
    unfolding read_next
    read_next-snoc = rw (load-ok s last-node)

    write_next-snoc : write_next (some e.ptr) v s ≡ returns tt (end_at s v xs e)
    unfolding write_next store
    write_next-snoc = rw (load-ok s last-node)

    Front-end_at : Front v (xs ++ (e ∷ [])) (end_at s v xs e)
    unfolding write
    Front-end_at = record {
      head = rw (first-append xs (e ∷ []) v) (rw (first-append xs (e ∷ []) nx) at f.head);
      links =
          Links-append _ xs (e ∷ []) none v
            (Links-write s.cells e.ptr _ xs none (some e.ptr)
              (IsDistinct-apart e.ptr xs (e ∷ []) d (ground arith))
              (Links-left s.cells xs (e ∷ []) none nx f.links))
            (ground arith, tt);
    }

    Same-end_at : Same (xs ++ (e ∷ [])) s (end_at s v xs e)
    unfolding write
    Same-end_at = record {
      cells = λ p h. ground (arith, has-append p xs (e ∷ []));
      borrowed = refl;
      woken = refl;
    }

  -- The pointer behind the segment `xs` holds `nx`; the write of `v` there ends the segment at `v`.
  pub record CutFront (s : World I O W) (nx v : Option Ptr) (xs : List (Entry I W)) : Type 0 where
    pub after : World I O W
    pub read : read_next (last xs none) s ≡ returns nx s
    pub wrote : write_next (last xs none) v s ≡ returns tt after
    pub front : Front v xs after
    pub same : Same xs s after
    pub tail : after.inner.tail ≡ s.inner.tail

  cut_front-snoc :
      (s : World I O W) (nx v : Option Ptr) (xs : List (Entry I W)) (e : Entry I W)
      → IsDistinct (xs ++ (e ∷ []))
      → Front nx (xs ++ (e ∷ [])) s
      → CutFront s nx v (xs ++ (e ∷ []))
  cut_front-snoc s nx v xs e d f = record {
    after = end_at s v xs e;
    read = rw (last-append xs (e ∷ []) none) (read_next-snoc s nx v xs e d f);
    wrote = rw (last-append xs (e ∷ []) none) (write_next-snoc s nx v xs e d f);
    front = Front-end_at s nx v xs e d f;
    same = Same-end_at s nx v xs e d f;
    tail = refl;
  }

  pub cut_front :
      (s : World I O W) (nx v : Option Ptr) (xs : List (Entry I W))
      → IsDistinct xs
      → Front nx xs s
      → CutFront s nx v xs
  unfolding read_next write_next
  cut_front s nx v xs d f = elim (snoc-cases xs) [
    | inl e ↦ rw e (record {
      after = record s { inner = record { head = v; tail = s.inner.tail } };
      read = ap (λ h. returns h s) (rw e at f.head);
      wrote = refl;
      front = record { head = refl; links = tt };
      same = record { cells = λ p h. refl; borrowed = refl; woken = refl };
      tail = refl;
    })
    | inr (ys, l, e) ↦ rw e (cut_front-snoc s nx v ys l (rw e at d) (rw e at f))
  ]

  -- The same from the back.
  pub record CutBack (s : World I O W) (pv v : Option Ptr) (ys : List (Entry I W)) : Type 0 where
    pub after : World I O W
    pub read : read_prev (first ys none) s ≡ returns pv s
    pub wrote : write_prev (first ys none) v s ≡ returns tt after
    pub back : Back v ys after
    pub same : Same ys s after
    pub head : after.inner.head ≡ s.inner.head

  pub cut_back :
      (s : World I O W) (pv v : Option Ptr) (ys : List (Entry I W))
      → IsDistinct ys
      → Back pv ys s
      → CutBack s pv v ys
  unfolding read_prev write_prev store write
  cut_back s pv v [] d b = record {
    after = record s { inner = record { head = s.inner.head; tail = v } };
    read = ap (λ t. returns t s) b.tail;
    wrote = refl;
    back = record { tail = refl; links = tt };
    same = record { cells = λ p h. refl; borrowed = refl; woken = refl };
    head = refl;
  }
  cut_back s pv v (e ∷ ys) d b = record {
    after = record s { cells = write s.cells e.ptr (some (node v (first ys none) e)) };
    read = rw (load-ok s b.links.0);
    wrote = rw (load-ok s b.links.0);
    back = record {
      tail = b.tail;
      links = (ground arith, Links-write s.cells e.ptr _ ys (some e.ptr) none d.0 b.links.1);
    };
    same = record { cells = λ p h. ground arith; borrowed = refl; woken = refl };
    head = refl;
  }
