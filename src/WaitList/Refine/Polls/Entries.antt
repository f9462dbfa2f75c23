-- ===== src/WaitList/Refine/Polls/Entries.antt =====
-- A new waker in one entry of the list.
use unsync.Prelude.{◌≡◌, refl, ◌∙◌, none, some, List, [], ◌∷◌, ◌++◌, arith}
use unsync.WaitList.{Ptr, World, write}
use unsync.WaitList.Links.{
  Entry, first, last, has, IsDistinct, first-append, last-append, node, Links-left, Links-right,
  Links-append, Links-write, write_self, IsDistinct-apart, IsDistinct-right,
}
use unsync.WaitList.Dequeue.{IsQueue}

module _ {I W : Type 0} (cx : W) where
  -- The entry with its waker replaced.
  abbrev pub renew : Entry I W → Entry I W
  renew e = record e { waker = cx }

  module _ (e : Entry I W) (ys : List (Entry I W)) where
    pub has-repoll :
        (p : Ptr) (xs : List (Entry I W)) → has p (xs ++ (renew e ∷ ys)) ≡ has p (xs ++ (e ∷ ys))
    has-repoll p [] = refl
    has-repoll p (x ∷ xs) = rw (has-repoll p xs)

    IsDistinct-repoll :
        (xs : List (Entry I W)) → IsDistinct (xs ++ (e ∷ ys)) → IsDistinct (xs ++ (renew e ∷ ys))
    IsDistinct-repoll [] d = d
    IsDistinct-repoll (x ∷ xs) d = (has-repoll x.ptr xs ∙ d.0, IsDistinct-repoll xs d.1)

    pub IsQueue-repoll :
        {O : Type 0} (xs : List (Entry I W)) (s : World I O W)
        → IsQueue (xs ++ (e ∷ ys)) s
        → IsQueue (xs ++ (renew e ∷ ys)) (record s {
          cells = write s.cells e.ptr (some (node (last xs none) (first ys none) (renew e)));
        })
    IsQueue-repoll xs s q = record {
      head =
          rw (first-append xs (renew e ∷ ys) none) (rw (first-append xs (e ∷ ys) none) at q.head);
      tail = rw (last-append xs (renew e ∷ ys) none) (rw (last-append xs (e ∷ ys) none) at q.tail);
      links =
          Links-append _ xs (renew e ∷ ys) none none
            (Links-write s.cells e.ptr _ xs none (some e.ptr)
              (IsDistinct-apart e.ptr xs (e ∷ ys) q.distinct (ground arith))
              (Links-left s.cells xs (e ∷ ys) none none q.links))
            (
              write_self s.cells e.ptr _,
              Links-write s.cells e.ptr _ ys (some e.ptr) none
                  (IsDistinct-right xs (e ∷ ys) q.distinct).0
                  (Links-right s.cells xs (e ∷ ys) none none q.links).1,
            );
      distinct = IsDistinct-repoll xs q.distinct;
    }
