-- ===== src/Semaphore/Pointers/Polls.antt =====
-- The polls of `acquire` over the pointers.
use unsync.Prelude.{
  arith, ℕ, ◌≡◌, ◌<◌, length, ◌≢◌, refl, Bool, true, false, Option, none, some, Option-cases, inl,
  inr, Run, Cmd, and_then, Poll, ready, pending,
}
use unsync.WaitList.{Ptr, World, wait_poll}
use unsync.WaitList.Spec.{repoll, Queue}
use unsync.WaitList.Spec.Cases.{Polled, missing, waits, ends, poll-Polled}
use unsync.WaitList.Refine.{Keeps, find_done-AreDone}
use unsync.WaitList.Refine.Starts.{wait_start-Reaches}
use unsync.WaitList.Refine.Polls.{poll-Keeps}
use unsync.Semaphore.{
  Semaphore, unfair, WakeUp, unfair_woken, fair_grant, release_permits, try_acquire_unfair, contend,
  woken_unfair, resume, resume_found, acquire_poll,
}
use unsync.WaitList.Spec.Lengths.{length-update}
use unsync.Semaphore.Pointers.{
  Cells, in_cells, cells_try_unfair, cells_waits, cells_begun, cells_contend, cells_resume,
  cells_retries, cells_poll,
}
use unsync.Semaphore.Pointers.Stands.{Meets, Stands, Ends, cells_release-Ends}
use unsync.Semaphore.Pointers.Fresh.{IsFresh, release_permits-IsFresh, find_done-removed}
use unsync.Semaphore.Pointers.Acquires.{Tries, try_unfair-Tries}

module _ {W : Type 0} (p : Ptr) where
  module _ (will_wake : W → W → Bool) (try : ℕ → Semaphore W → Option (Semaphore W))
      (cells_tries : ℕ → Cmd (Cells W) Bool) (same : Tries try cells_tries) (n : ℕ) (cx : W) where
    pub contend-Ends :
        (s : Semaphore W) (m : Cells W)
        → IsFresh p s
        → Stands s m
        → m.waiters.borrowed ≡ false
        → let (r, t) = contend try p n cx s in
          Ends r t false (cells_contend will_wake cells_tries p n cx m)
    unfolding contend cells_contend cells_waits cells_begun
    contend-Ends s m (out, new) v idle =
        let tried = same n s m v idle in
        elim (Option-cases (try n s)) [
          | inl e ↦
              let k : Ends false s false (cells_tries n m) = rw e at tried in
              let w =
                wait_start-Reaches will_wake p n cx s.waiters k.after.waiters k.borrowed
                  (k.stands.owned p out new) k.stands.refines k.stands.owned in
              rw (contend, e, k.run, w.run)
                (record {
                  after = record (k.after) { waiters = w.after };
                  run = refl;
                  stands = record {
                    refines = w.refines;
                    owned = w.owned;
                    permits = k.stands.permits;
                    total_permits = k.stands.total_permits;
                  };
                  borrowed = w.borrowed;
                })
          | inr (t, e) ↦
              let k : Ends true t false (cells_tries n m) = rw e at tried in
              rw (contend, e, k.run)
                (record { after = k.after; run = refl; stands = k.stands; borrowed = k.borrowed })
        ]

    module _ (f : ℕ) where
      retries-Meets :
          (s : Semaphore W) (m : Cells W) (o : Option (Semaphore W))
          → release_permits 0 unfair s ≡ o
          → IsFresh p s
          → length s.waiters.waiting < f
          → Stands s m
          → m.waiters.borrowed ≡ false
          → Meets
              (elim o [ none ↦ none | some s' ↦ some (contend try p n cx s') ])
              (cells_retries will_wake f cells_tries p n cx false m)
      unfolding cells_retries
      retries-Meets s m none e v h k idle = tt
      retries-Meets s m (some t) e v h k idle =
          let r = cells_release-Ends f 0 unfair s m h e k idle in
          rw r.run
            (contend-Ends t r.after (release_permits-IsFresh p 0 unfair s e v) r.stands r.borrowed)

      unfair-Meets :
          (s : Semaphore W) (m : Cells W)
          → IsFresh p s
          → length s.waiters.waiting < f
          → Stands s m
          → m.waiters.borrowed ≡ false
          → Meets
              (woken_unfair try p n cx s)
              (cells_resume will_wake f cells_tries p n cx (ready unfair_woken) m)
      unfolding woken_unfair cells_resume cells_retries
      unfair-Meets s m v h k idle =
          let tried = try_unfair-Tries n s m k idle in
          elim (Option-cases (try_acquire_unfair n s)) [
            | inl e ↦
                let took : Ends false s false (cells_try_unfair n m) = rw e at tried in
                rw (woken_unfair, e, took.run)
                  (retries-Meets s took.after (release_permits 0 unfair s) refl v h took.stands
                    took.borrowed)
            | inr (t, e) ↦
                let took : Ends true t false (cells_try_unfair n m) = rw e at tried in
                rw (woken_unfair, e, took.run)
                  (record {
                    after = took.after;
                    run = refl;
                    stands = took.stands;
                    borrowed = took.borrowed;
                  })
          ]

      resume-Meets :
          (r : Poll WakeUp) (s : Semaphore W) (m : Cells W)
          → (r ≢ pending → IsFresh p s)
          → length s.waiters.waiting < f
          → Stands s m
          → m.waiters.borrowed ≡ false
          → Meets (resume try p n cx r s) (cells_resume will_wake f cells_tries p n cx r m)
      unfolding resume cells_resume
      resume-Meets pending s m v h k idle = record {
        after = m;
        run = refl;
        stands = k;
        borrowed = idle;
      }
      resume-Meets (ready unfair_woken) s m v h k idle = unfair-Meets s m (v (λ e. cc)) h k idle
      resume-Meets (ready (fair_grant g)) s m v h k idle = record {
        after = m;
        run = refl;
        stands = k;
        borrowed = idle;
      }

      found-Meets :
          (s : Semaphore W) (m : Cells W) {x : Option (Poll WakeUp × Queue ℕ WakeUp W)}
          (r : Run (World ℕ WakeUp W) (Poll WakeUp))
          → length s.waiters.waiting < f
          → Stands s m
          → Polled will_wake p cx s.waiters x
          → Keeps x r
          → Meets
              (resume_found try p n cx s x)
              (and_then (in_cells m r) (cells_resume will_wake f cells_tries p n cx))
      unfolding resume_found
      found-Meets s m r h v missing k = tt
      found-Meets s m r h v waits k = rw k.run (
          resume-Meets pending _ (record m { waiters = k.after }) (λ e. absurd (e refl))
            (omega (arith, length-update (repoll will_wake cx) p s.waiters.waiting))
            (record {
              refines = k.refines;
              owned = k.owned;
              permits = v.permits;
              total_permits = v.total_permits;
            })
            k.borrowed)
      found-Meets s m r h v (ends o found) k =
          let (d, out) =
            find_done-AreDone p o s.waiters.waiting m.waiters s.waiters.done v.refines.done found in
          let new =
            find_done-removed p o s.waiters.waiting m.waiters s.waiters.done v.refines.done found in
          rw k.run (
            resume-Meets (ready o) _ (record m { waiters = k.after }) (λ e. (out, new)) h
              (record {
                refines = k.refines;
                owned = k.owned;
                permits = v.permits;
                total_permits = v.total_permits;
              })
              k.borrowed)

      -- On more fuel than there are waiters a later poll of `acquire` or `acquire_unfair` returns what
      -- it returns over the promise of the wait list.
      pub acquire_poll-Meets :
          (s : Semaphore W) (m : Cells W)
          → length s.waiters.waiting < f
          → Stands s m
          → m.waiters.borrowed ≡ false
          → Meets
              (acquire_poll will_wake try p n cx s)
              (cells_poll will_wake f cells_tries p n cx m)
      unfolding acquire_poll cells_poll
      acquire_poll-Meets s m h v idle =
          found-Meets s m (wait_poll will_wake p cx m.waiters) h v
            (poll-Polled p s.waiters will_wake cx)
            (poll-Keeps will_wake p cx s.waiters m.waiters idle v.refines v.owned)
