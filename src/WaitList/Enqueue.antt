-- ===== src/WaitList/Enqueue.antt =====
-- `Inner::enqueue` on a list that is linked properly.
use unsync.Prelude.{
  ◌≡◌, refl, sym, ◌∙◌, inl, inr, false, Option, none, some, List, [], ◌∷◌, ◌++◌, arith,
}
use unsync.WaitList.{Ptr, World, returns, load, write, read_next, write_next, link_tail, enqueue}
use unsync.WaitList.Links.{
  Entry, first, has, first-append, last-append, snoc-cases, IsDistinct-snoc, has-snoc, write_self,
  write-ne, node, Links-append, Links-write,
}
use unsync.WaitList.Relink.{load-ok, CutFront, cut_front}
use unsync.WaitList.Dequeue.{IsQueue, Relinked}

first-snoc-some :
    {I W : Type 0} (xs : List (Entry I W)) (e : Entry I W) (nx : Option Ptr)
    → (h : Ptr) × (first (xs ++ (e ∷ [])) nx ≡ some h)
first-snoc-some [] e nx = (e.ptr, refl)
first-snoc-some (x ∷ xs) e nx = (x.ptr, refl)

module _ {I O W : Type 0} where
  -- With no waiter behind the old tail, `link_tail` is the write to its `next`.
  link_tail-write_next :
      (q p : Ptr) (s t : World I O W)
      → read_next (some q) s ≡ returns none s
      → write_next (some q) (some p) s ≡ returns tt t
      → link_tail (some q) p s ≡ returns tt t
  unfolding link_tail read_next write_next load
  link_tail-write_next q p s t r w = ground arith

  module _ (e : Entry I W) (pv : Option Ptr) (s : World I O W)
      (at : s.cells e.ptr ≡ some (node pv none e)) where
    -- The world after `waiter.prev = self.tail`.
    abbrev placed : Option Ptr → World I O W
    placed tail = record s { cells = write s.cells e.ptr (some (node tail none e)) }

    enqueue-nil :
        IsQueue [] s
        → (t : World I O W) × (enqueue e.ptr s ≡ returns tt t) × Relinked (e ∷ []) (e ∷ []) s t
    unfolding enqueue write
    enqueue-nil q = (
      record (placed none) { inner = record { head = some e.ptr; tail = some e.ptr } },
      rw (load-ok s at, q.tail, q.head),
      record {
        queue = record {
          head = refl;
          tail = refl;
          links = (ground arith, tt);
          distinct = (refl, tt);
        };
        same = record { cells = λ p h. ground arith; borrowed = refl; woken = refl };
      },
    )

    module _ (xs : List (Entry I W)) (l : Entry I W) (q : IsQueue (xs ++ (l ∷ [])) s)
        (out : has e.ptr (xs ++ (l ∷ [])) ≡ false) where
      old : World I O W
      old = placed (some l.ptr)

      old_cut : CutFront old none (some e.ptr) (xs ++ (l ∷ []))
      unfolding old
      old_cut = cut_front old none (some e.ptr) (xs ++ (l ∷ [])) q.distinct (record {
        head = q.head;
        links = Links-write s.cells e.ptr _ (xs ++ (l ∷ [])) none none out q.links;
      })

      tail-old : s.inner.tail ≡ some l.ptr
      tail-old = q.tail ∙ last-append xs (l ∷ []) none

      link_tail-old : link_tail (some l.ptr) e.ptr old ≡ returns tt old_cut.after
      link_tail-old =
          link_tail-write_next l.ptr e.ptr old old_cut.after
            (rw (last-append xs (l ∷ []) none) at old_cut.read)
            (rw (last-append xs (l ∷ []) none) at old_cut.wrote)

      linked : World I O W
      linked = record old_cut.after {
        inner = record { head = old_cut.after.inner.head; tail = some e.ptr };
      }

      enqueue-returns : enqueue e.ptr s ≡ returns tt linked
      unfolding enqueue linked old
      enqueue-returns =
          let (h, eq) = first-snoc-some xs l (some e.ptr) in
          simp (load-ok s at, tail-old, link_tail-old, old_cut.front.head ∙ eq)

      enqueue-Relinked :
          Relinked ((xs ++ (l ∷ [])) ++ (e ∷ [])) ((xs ++ (l ∷ [])) ++ (e ∷ [])) s linked
      unfolding linked old
      enqueue-Relinked = record {
        queue = record {
          head = old_cut.front.head ∙ sym (first-append (xs ++ (l ∷ [])) (e ∷ []) none);
          tail = sym (last-append (xs ++ (l ∷ [])) (e ∷ []) none);
          links = Links-append _ (xs ++ (l ∷ [])) (e ∷ []) none none old_cut.front.links (
            old_cut.same.cells e.ptr out
                ∙ rw (last-append xs (l ∷ []) none) (write_self s.cells e.ptr _),
            tt,
          );
          distinct = IsDistinct-snoc (xs ++ (l ∷ [])) e q.distinct out;
        };
        same = record {
          cells = λ p h.
              let (before, other) = has-snoc p (xs ++ (l ∷ [])) e h in
              old_cut.same.cells p before ∙ write-ne s.cells e.ptr _ p other;
          borrowed = old_cut.same.borrowed;
          woken = old_cut.same.woken;
        };
      }

    -- `enqueue` of a waiter that is not in the list puts it behind all others, and touches no
    -- waiter but those of the list and the new one.
    pub enqueue_lem :
        (es : List (Entry I W))
        → IsQueue es s
        → has e.ptr es ≡ false
        → (t : World I O W) × (enqueue e.ptr s ≡ returns tt t)
          × Relinked (es ++ (e ∷ [])) (es ++ (e ∷ [])) s t
    enqueue_lem es q out = elim (snoc-cases es) [
      | inl h ↦ rw h (enqueue-nil (rw h at q))
      | inr (xs, l, h) ↦
          let q' : IsQueue (xs ++ (l ∷ [])) s = rw h at q in
          let out' : has e.ptr (xs ++ (l ∷ [])) ≡ false = rw h at out in
          rw h (linked xs l q' out', enqueue-returns xs l q' out', enqueue-Relinked xs l q' out')
    ]
