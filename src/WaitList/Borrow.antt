-- ===== src/WaitList/Borrow.antt =====
-- The flag `borrowed` of a wait list.
use unsync.Prelude.{◌≡◌, refl, sym, ap, true, false}
use unsync.WaitList.{
  World, returns, panic, abort, borrow, try_borrow, drop_borrowed, wait_inner_new, wait_inner_drop,
}
use unsync.WaitList.Memory.{Ptr}

module _ {I O W : Type 0} where
  -- While a wait list is borrowed, a second `try_borrow` is refused, a second `borrow` and the start
  -- of a wait panic, and the drop of a future that waits aborts, before any of them touches the
  -- list. When the borrow ends, the list is as it was before.
  pub borrow-excludes :
      (p : Ptr) (s : World I O W)
      → s.borrowed ≡ false
      → (t : World I O W) × (borrow s ≡ returns tt t)
        × (try_borrow t ≡ returns false t)
        × (borrow t ≡ panic)
        × (wait_inner_new p t ≡ panic)
        × (wait_inner_drop p t ≡ abort)
        × (drop_borrowed t ≡ returns tt s)
  unfolding borrow try_borrow drop_borrowed wait_inner_new wait_inner_drop
  borrow-excludes p s idle =
      let again : drop_borrowed (record s { borrowed = true }) ≡ returns tt s =
        ap (λ b. returns tt (record s { borrowed = b })) (sym idle) in
      (record s { borrowed = true }, simp idle, refl, refl, refl, refl, again)
