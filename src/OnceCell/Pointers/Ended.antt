-- ===== src/OnceCell/Pointers/Ended.antt =====
-- The end of an initializer with a value, over the memory: the loop that wakes all, under a borrow.
use unsync.Prelude.{
  ℕ, zero, suc, ◌<◌, ◌≡◌, refl, subst, some, List, [], ◌∷◌, true, false, arith, length,
}
use unsync.WaitList.{Ptr}
use unsync.WaitList.Links.{Entry}
use unsync.WaitList.Spec.{Queue}
use unsync.WaitList.Spec
use unsync.WaitList.Refine.{Refines-borrow, borrow-ok, drop_borrowed-ok}
use unsync.WaitList.Refine.Wake.{wake_one-Reaches}
use unsync.OnceCell.{OnceCell, initialized, get, get_state, wake_all, init_succeeds}
use unsync.OnceCell.Pointers.{
  Cells, set_state, cells_get, unwrap, cells_woke, cells_wake_all, cells_succeeds,
}
use unsync.OnceCell.Pointers.Stands.{Stands, Ends, stays, baton-initialized}

abbrev queue :
    {W : Type 0}
    → List (Entry (Unit {0}) W)
    → List (Ptr × Unit {0})
    → List W
    → Queue (Unit {0}) (Unit {0}) W
queue es ds ws = record { waiting = es; done = ds; woken = ws }

module _ {T W : Type 0} where
  -- On more fuel than there are waiters, of the promise and of the code.
  wake_all-Ends :
      (f g : ℕ) (value : T) (es : List (Entry (Unit {0}) W)) (ds : List (Ptr × Unit {0}))
      (ws : List W) (m : Cells T W)
      → length es < f
      → length es < g
      → Stands (record { state = initialized value; waiters = queue es ds ws }) m
      → (q : Queue (Unit {0}) (Unit {0}) W) × (wake_all g (queue es ds ws) ≡ some q)
        × (q.waiting ≡ [])
        × Ends tt
            (record { state = initialized value; waiters = q })
            m.waiters.borrowed
            (cells_wake_all f m)
  unfolding wake_all cells_wake_all cells_woke Spec.wake_one Spec.wake_front
  wake_all-Ends zero g value es ds ws m h k v = absurd (omega arith)
  wake_all-Ends (suc f) zero value es ds ws m h k v = absurd (omega arith)
  wake_all-Ends (suc f) (suc g) value [] ds ws m h k v =
      let woken = wake_one-Reaches tt (queue [] ds ws) m.waiters v.refines v.owned in
      let m' : Cells T W = record m { waiters = woken.after } in
      let c : OnceCell T W = record { state = initialized value; waiters = queue [] ds ws } in
      (
        queue [] ds ws,
        refl,
        refl,
        rw (woken.run, baton-initialized value m' v.state)
            (stays tt c m'
              (record { refines = woken.refines; owned = woken.owned; state = v.state })
              woken.borrowed),
      )
  wake_all-Ends (suc f) (suc g) value (e ∷ es) ds ws m h k v =
      let woken = wake_one-Reaches tt (queue (e ∷ es) ds ws) m.waiters v.refines v.owned in
      let m' : Cells T W = record m { waiters = woken.after } in
      let (q, ran, nobody, r) =
        wake_all-Ends f g value es ((e.ptr, tt) ∷ ds) (e.waker ∷ ws) m' (omega arith) (omega arith)
          (record { refines = woken.refines; owned = woken.owned; state = v.state }) in
      (
        q,
        ran,
        nobody,
        rw woken.run (
            subst
              (λ b.
                Ends tt (record { state = initialized value; waiters = q }) b (cells_wake_all f m'))
              woken.borrowed r),
      )

  -- The end of `get_or_try_init`, on more fuel than there are waiters: the value is there, and
  -- nobody waits any more.
  pub succeeds-Ends :
      (f : ℕ) (value : T) (c : OnceCell T W) (m : Cells T W)
      → length c.waiters.waiting < f
      → Stands c m
      → m.waiters.borrowed ≡ false
      → (t : OnceCell T W) × (init_succeeds value c ≡ some t)
        × (get t ≡ some value)
        × (t.waiters.waiting ≡ [])
        × Ends value t false (cells_succeeds f value m)
  unfolding init_succeeds cells_succeeds set_state cells_get get get_state unwrap
  succeeds-Ends f value c m h v idle =
      let m' : Cells T W = record {
        state = initialized value;
        waiters = record (m.waiters) { borrowed = true };
      } in
      let (q, ran, nobody, r) =
        wake_all-Ends f (suc (length c.waiters.waiting)) value c.waiters.waiting c.waiters.done
          c.waiters.woken m' h (omega arith)
          (record { refines = Refines-borrow true v.refines; owned = v.owned; state = refl }) in
      let k = r.after in
      (
        record { state = initialized value; waiters = q },
        rw (ran, init_succeeds) refl,
        refl,
        nobody,
        rw (borrow-ok m.waiters idle, r.run, r.stands.state, drop_borrowed-ok k.waiters r.borrowed)
            (stays value (record { state = initialized value; waiters = q })
              (record k { waiters = record (k.waiters) { borrowed = false } })
              (record {
                refines = Refines-borrow false r.stands.refines;
                owned = r.stands.owned;
                state = r.stands.state;
              })
              refl),
      )
