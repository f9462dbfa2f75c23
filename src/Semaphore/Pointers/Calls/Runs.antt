-- ===== src/Semaphore/Pointers/Calls/Runs.antt =====
-- The semaphore over the memory keeps every promise, over any calls.
use unsync.Prelude.{
  ℕ, suc, ◌+◌, ◌≤◌, ◌≡◌, refl, subst, Bool, false, ◌||◌, Option, none, some, List, arith, inl, inr,
  Bool-cases, Option-cases, Run, is_some, length,
}
use unsync.WaitList.Links.{has}
use unsync.WaitList.Spec.{find_done, empty}
use unsync.Prelude.Histories.{reply, calls, promises, Lands, calls-Lands}
use unsync.WaitList.Calls.Total.{new-Refines, new-Owned, new-idle}
use unsync.Semaphore.{
  Semaphore, new, WakeUp, add_permits_with, release_permits, leak, acquire_poll, acquire_drop,
}
use unsync.Semaphore.System.{try_of}
use unsync.Semaphore.Waiting.{
  waiters, AtMost, AtMostWith, add_permits_with-AtMost, release_permits-AtMost, acquire_drop-AtMost,
  acquire_poll-AtMost, contend-AtMost, took-AtMost,
}
use unsync.Semaphore.Pointers.{Cells, cells_new}
use unsync.Semaphore.Pointers.Stands.{Stands, Ends, Meets}
use unsync.Semaphore.Pointers.Calls.{
  Call, adds, tries, first_poll, later_poll, cancel, gives_back, leaks, counts, Reply, polled,
  done_after, call, promised,
}
use unsync.Semaphore.Pointers.Calls.Single.{call-Meets}

module _ {W : Type 0} where
  module _ (will_wake : W → W → Bool) where
    reply-AtMostWith :
        {A B : Type 0} (g : A → B) (b : ℕ) (o : Option (A × Semaphore W))
        → AtMostWith b o
        → AtMostWith b (reply g o)
    reply-AtMostWith g b none h = tt
    reply-AtMostWith g b (some (a, t)) h = h

    done-AtMostWith :
        (b : ℕ) (o : Option (Semaphore W)) → AtMost b o → AtMostWith (suc b) (done_after o)
    done-AtMostWith b none h = tt
    done-AtMostWith b (some t) h = omega arith

    -- With a call at most one more future waits.
    promised-AtMost :
        (c : Call W) (s : Semaphore W) → AtMostWith (suc (waiters s)) (promised will_wake c s)
    unfolding promised leak
    promised-AtMost (adds fairness n) s =
        done-AtMostWith (waiters s) (add_permits_with fairness n s)
          (add_permits_with-AtMost fairness n s)
    promised-AtMost (tries steal n) s = elim (Option-cases (try_of steal n s)) [
      | inl e ↦ rw e (omega arith)
      | inr (t, e) ↦ rw e (omega (arith, took-AtMost steal n s t e))
    ]
    promised-AtMost (first_poll steal p n cx) s =
        elim (Bool-cases (has p s.waiters.waiting || is_some (find_done p s.waiters.done))) [
          | inl there ↦ rw there tt
          | inr fresh ↦ rw fresh (contend-AtMost steal p n cx s)
        ]
    promised-AtMost (later_poll steal p n cx) s =
        reply-AtMostWith polled (suc (waiters s)) (acquire_poll will_wake (try_of steal) p n cx s)
          (acquire_poll-AtMost steal p n cx will_wake s)
    promised-AtMost (cancel p) s =
        done-AtMostWith (waiters s) (acquire_drop p s) (acquire_drop-AtMost p s)
    promised-AtMost (gives_back fairness n) s =
        done-AtMostWith (waiters s) (release_permits n fairness s)
          (release_permits-AtMost n fairness s)
    promised-AtMost (leaks n) s = omega arith
    promised-AtMost counts s = omega arith

    -- There is fuel for the waiters that there are and those that may come.
    abbrev Holds : ℕ → ℕ → Semaphore W → Cells W → Type 0
    Holds f k s m = (waiters s + k ≤ f) × Stands s m × (m.waiters.borrowed ≡ false)

    Meets-Lands :
        {A : Type 0} (f k b : ℕ) (o : Option (A × Semaphore W)) (x : Run (Cells W) A)
        → b + k ≤ f
        → AtMostWith b o
        → Meets o x
        → Lands (Holds f) k o x
    Meets-Lands f k b none x h l m = tt
    Meets-Lands f k b (some (a, t)) x h l m = (m.after, m.run, (omega arith, m.stands, m.borrowed))

    call-Lands :
        (f k : ℕ) (c : Call W) (s : Semaphore W) (m : Cells W)
        → Holds f (suc k) s m
        → Lands (Holds f) k (promised will_wake c s) (call will_wake f c m)
    call-Lands f k c s m (h, v, idle) =
        Meets-Lands f k (suc (waiters s)) (promised will_wake c s) (call will_wake f c m)
          (omega arith) (promised-AtMost c s) (call-Meets f s m (omega arith) v idle will_wake c)

    new-Stands : (n : ℕ) → Stands {W = W} (new n) (cells_new n)
    unfolding new cells_new empty
    new-Stands n = record {
      refines = new-Refines will_wake;
      owned = new-Owned will_wake;
      permits = refl;
      total_permits = refl;
    }

    -- From `Semaphore::new` on, whatever calls are made in whatever order, if each of them can be
    -- made at all and no addition of permits panics, the code over the memory of the wait list returns from each what it
    -- returns over the queue of the promise, on as much fuel for each call as there are calls; and it
    -- ends with the list not borrowed, in a memory that holds the semaphore with that queue. So
    -- there is no panic, no abort, no access to memory that is gone, no read of the wrong member of
    -- a union, and no second borrow of the list.
    pub calls-Ends :
        (n : ℕ) (cs : List (Call W)) {rs : List Reply} {t : Semaphore W}
        → promises (promised will_wake) cs (new n) ≡ some (rs, t)
        → Ends rs t false (calls (call will_wake (length cs)) cs (cells_new n))
    unfolding new cells_new empty
    calls-Ends n cs e =
        let f = length cs in
        let all =
          calls-Lands (Holds f) (call will_wake f) (promised will_wake) (call-Lands f) cs (new n)
            (cells_new n) (omega arith, new-Stands n, new-idle ℕ WakeUp W) in
        let (m, run, h) =
          subst (λ x. Lands (Holds f) 0 x (calls (call will_wake f) cs (cells_new n))) e all in
        record { after = m; run = run; stands = h.1; borrowed = h.2 }
