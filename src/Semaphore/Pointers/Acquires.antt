-- ===== src/Semaphore/Pointers/Acquires.antt =====
-- The futures of a semaphore over the pointers do what those over the promise do.
use unsync.Prelude.{
  ℕ, ◌≡◌, ◌<◌, length, refl, Bool, true, false, Option, none, some, is_some, Option-cases, inl, inr,
  Run, Cmd, and_then, Bool-cases,
}
use unsync.WaitList.{Ptr, State, input, output, World, wait_drop}
use unsync.WaitList.Spec.{Queue, find_done, remove_done, start}
use unsync.WaitList.Spec
use unsync.WaitList.Refine.{Keeps, Refines-borrow, borrow-ok}
use unsync.WaitList.Refine.Drops.{drop-Keeps}
use unsync.WaitList.Refine.Heads.{head-waits}
use unsync.Semaphore.{
  Semaphore, Fairness, unfair, WakeUp, unfair_woken, fair_grant, checked_sub, release_permits,
  try_acquire_unfair, try_acquire, drop_state, drop_found, acquire_drop,
}
use unsync.WaitList.Spec.Lengths.{IsShort, drop-IsShort}
use unsync.Semaphore.Pointers.{
  Cells, in_cells, cells_release, cells_set, cells_taken, cells_try_unfair, cells_try,
  cells_drop_state, cells_drop,
}
use unsync.Semaphore.Pointers.Stands.{Stands, Ends, EndsIf, cells_release-Ends}

module _ {W : Type 0} where
  -- A try, which takes permits or leaves the semaphore as it is.
  abbrev Took : Option (Semaphore W) → Semaphore W → Run (Cells W) Bool → Type 0
  Took none s x = Ends false s false x
  Took (some t) s x = Ends true t false x

  abbrev pub Tries : (ℕ → Semaphore W → Option (Semaphore W)) → (ℕ → Cmd (Cells W) Bool) → Type 0
  Tries try cells =
      (n : ℕ) (s : Semaphore W) (m : Cells W)
      → Stands s m
      → m.waiters.borrowed ≡ false
      → Took (try n s) s (cells n m)

  pub try_unfair-Tries : Tries try_acquire_unfair cells_try_unfair
  unfolding try_acquire_unfair cells_try_unfair cells_taken cells_set
  try_unfair-Tries n s m v idle = elim (Option-cases (checked_sub s.permits n)) [
    | inl few ↦
        rw (try_acquire_unfair, v.permits, few)
          (record {
            after = record m { permits = s.permits };
            run = refl;
            stands = record {
              refines = v.refines;
              owned = v.owned;
              permits = refl;
              total_permits = v.total_permits;
            };
            borrowed = idle;
          })
    | inr (new_permits, enough) ↦
        rw (try_acquire_unfair, v.permits, enough)
          (record {
            after = record m { permits = new_permits };
            run = refl;
            stands = record {
              refines = v.refines;
              owned = v.owned;
              permits = refl;
              total_permits = v.total_permits;
            };
            borrowed = idle;
          })
  ]

  pub try-Tries : Tries try_acquire cells_try
  unfolding try_acquire cells_try
  try-Tries n s m v idle =
      let m' : Cells W = record m { waiters = record (m.waiters) { borrowed = false } } in
      let v' : Stands s m' = record {
        refines = Refines-borrow false v.refines;
        owned = v.owned;
        permits = v.permits;
        total_permits = v.total_permits;
      } in
      rw (borrow-ok m.waiters idle, head-waits s.waiters m.waiters v.refines)
        (elim (Bool-cases (is_some (Spec.head_input s.waiters.waiting))) [
          | inl waits ↦ rw waits (record { after = m'; run = refl; stands = v'; borrowed = refl })
          | inr nobody ↦ rw nobody (try_unfair-Tries n s m' v' refl)
        ])

  module _ (f : ℕ) where
    pub release-EndsIf :
        (n : ℕ) (fairness : Fairness) (s : Semaphore W) (m : Cells W)
        → length s.waiters.waiting < f
        → Stands s m
        → m.waiters.borrowed ≡ false
        → EndsIf (release_permits n fairness s) false (cells_release f n fairness m)
    release-EndsIf n fairness s m h v idle = elim (Option-cases (release_permits n fairness s)) [
      | inl e ↦ rw e tt
      | inr (t, e) ↦ rw e (cells_release-Ends f n fairness s m h e v idle)
    ]

    drop_state-EndsIf :
        (a : State ℕ WakeUp) (s : Semaphore W) (m : Cells W)
        → length s.waiters.waiting < f
        → Stands s m
        → m.waiters.borrowed ≡ false
        → EndsIf (drop_state a s) false (cells_drop_state f a m)
    unfolding drop_state cells_drop_state
    drop_state-EndsIf (input n) s m h v idle = record {
      after = m;
      run = refl;
      stands = v;
      borrowed = idle;
    }
    drop_state-EndsIf (output unfair_woken) s m h v idle = release-EndsIf 0 unfair s m h v idle
    drop_state-EndsIf (output (fair_grant g)) s m h v idle = release-EndsIf g unfair s m h v idle

    drop_found-EndsIf :
        (x : Option (State ℕ WakeUp × Queue ℕ WakeUp W)) (s : Semaphore W) (m : Cells W)
        (r : Run (World ℕ WakeUp W) (State ℕ WakeUp))
        → IsShort x f
        → Stands s m
        → Keeps x r
        → EndsIf (drop_found s x) false (and_then (in_cells m r) (cells_drop_state f))
    unfolding drop_found
    drop_found-EndsIf none s m r h v k = tt
    drop_found-EndsIf (some (a, q)) s m r h v k = rw k.run (
        drop_state-EndsIf a (record s { waiters = q }) (record m { waiters = k.after }) h
          (record {
            refines = k.refines;
            owned = k.owned;
            permits = v.permits;
            total_permits = v.total_permits;
          })
          k.borrowed)

    -- On more fuel than there are waiters the drop of a future that waits or was woken does what it
    -- does over the promise of the wait list.
    pub acquire_drop-EndsIf :
        (p : Ptr) (s : Semaphore W) (m : Cells W)
        → length s.waiters.waiting < f
        → Stands s m
        → m.waiters.borrowed ≡ false
        → EndsIf (acquire_drop p s) false (cells_drop f p m)
    unfolding acquire_drop cells_drop
    acquire_drop-EndsIf p s m h v idle =
        drop_found-EndsIf (Spec.drop p s.waiters) s m (wait_drop p m.waiters)
          (drop-IsShort p s.waiters h) v (drop-Keeps p s.waiters m.waiters idle v.refines v.owned)
