-- ===== src/Semaphore/Waiting.antt =====
-- How many futures wait after a call of the semaphore: at most one more.
use unsync.Prelude.{
  ℕ, suc, ◌≤◌, ◌≡◌, ap, Bool, true, Option, none, some, arith, inl, inr, Option-cases, length,
  length-append, Poll, ready, pending,
}
use unsync.WaitList.{Ptr, State, input, output}
use unsync.WaitList.Spec.{Queue, start, repoll}
use unsync.WaitList.Spec
use unsync.WaitList.Spec.Cases.{Polled, missing, waits, ends, poll-Polled}
use unsync.Semaphore.{
  Semaphore, Fairness, unfair, WakeUp, unfair_woken, fair_grant, checked_add, release_permits,
  add_permits_with, try_acquire_unfair, contend, woken_unfair, resume, resume_found, acquire_poll,
  drop_state, drop_found, acquire_drop,
}
use unsync.WaitList.Spec.Lengths.{length-update, IsShort, drop-IsShort}
use unsync.Semaphore.Order.{release_permits-Serves}
use unsync.Semaphore.System.{try_of}
use unsync.Semaphore.System.Accounts.{try_of-Tries}

module _ {W : Type 0} where
  abbrev pub waiters : Semaphore W → ℕ
  waiters s = length s.waiters.waiting

  abbrev pub AtMost : ℕ → Option (Semaphore W) → Type 0
  AtMost b none = Unit {0}
  AtMost b (some t) = waiters t ≤ b

  abbrev pub AtMostWith : {A : Type 0} → ℕ → Option (A × Semaphore W) → Type 0
  AtMostWith b none = Unit {0}
  AtMostWith b (some (a, t)) = waiters t ≤ b

  AtMost-mono : {b c : ℕ} (o : Option (Semaphore W)) → b ≤ c → AtMost b o → AtMost c o
  AtMost-mono none h k = tt
  AtMost-mono (some t) h k = omega arith

  pub release_permits-AtMost :
      (n : ℕ) (fairness : Fairness) (s : Semaphore W)
      → AtMost (waiters s) (release_permits n fairness s)
  release_permits-AtMost n fairness s =
      let (t, run, v) = release_permits-Serves n fairness s in
      rw run (omega (arith, ap length v.whole, length-append v.served t.waiters.waiting))

  pub add_permits_with-AtMost :
      (fairness : Fairness) (n : ℕ) (s : Semaphore W)
      → AtMost (waiters s) (add_permits_with fairness n s)
  unfolding add_permits_with
  add_permits_with-AtMost fairness n s = elim (Option-cases (checked_add s.total_permits n)) [
    | inl over ↦ rw (add_permits_with, over) tt
    | inr (total, fits) ↦
        rw (add_permits_with, fits)
          (release_permits-AtMost n fairness (record s { total_permits = total }))
  ]

  drop_state-AtMost : (a : State ℕ WakeUp) (s : Semaphore W) → AtMost (waiters s) (drop_state a s)
  unfolding drop_state
  drop_state-AtMost (input n) s = omega arith
  drop_state-AtMost (output unfair_woken) s = release_permits-AtMost 0 unfair s
  drop_state-AtMost (output (fair_grant g)) s = release_permits-AtMost g unfair s

  drop_found-AtMost :
      (x : Option (State ℕ WakeUp × Queue ℕ WakeUp W)) (s : Semaphore W) (b : ℕ)
      → IsShort x (suc b)
      → AtMost b (drop_found s x)
  unfolding drop_found
  drop_found-AtMost none s b h = tt
  drop_found-AtMost (some (a, q)) s b h =
      AtMost-mono (drop_state a (record s { waiters = q })) (omega arith)
        (drop_state-AtMost a (record s { waiters = q }))

  pub acquire_drop-AtMost : (p : Ptr) (s : Semaphore W) → AtMost (waiters s) (acquire_drop p s)
  unfolding acquire_drop
  acquire_drop-AtMost p s =
      drop_found-AtMost (Spec.drop p s.waiters) s (waiters s)
        (drop-IsShort p s.waiters (omega arith))

  pub took-AtMost :
      (steal : Bool) (n : ℕ) (s t : Semaphore W) → try_of steal n s ≡ some t → waiters t ≤ waiters s
  took-AtMost steal n s t e =
      let (enough, same) = (try_of-Tries steal).takes n s t e in rw same (omega arith)

  module _ (steal : Bool) (p : Ptr) (n : ℕ) (cx : W) where
    pub contend-AtMost :
        (s : Semaphore W) → waiters (contend (try_of steal) p n cx s).1 ≤ suc (waiters s)
    unfolding contend start
    contend-AtMost s = elim (Option-cases (try_of steal n s)) [
      | inl e ↦ rw (contend, e) (omega (arith, length-append s.waiters.waiting _))
      | inr (t, e) ↦ rw (contend, e) (omega (arith, took-AtMost steal n s t e))
    ]

    contended-AtMost :
        (s : Semaphore W) (o : Option (Semaphore W))
        → AtMost (waiters s) o
        → AtMostWith
            (suc (waiters s))
            (elim o [ none ↦ none | some s' ↦ some (contend (try_of steal) p n cx s') ])
    contended-AtMost s none h = tt
    contended-AtMost s (some t) h = omega (arith, contend-AtMost t)

    woken_unfair-AtMost :
        (s : Semaphore W) → AtMostWith (suc (waiters s)) (woken_unfair (try_of steal) p n cx s)
    unfolding woken_unfair
    woken_unfair-AtMost s = elim (Option-cases (try_acquire_unfair n s)) [
      | inl e ↦
          rw (woken_unfair, e)
            (contended-AtMost s (release_permits 0 unfair s) (release_permits-AtMost 0 unfair s))
      | inr (t, e) ↦
          let (enough, same) = (try_of-Tries true).takes n s t e in
          rw (woken_unfair, e) (rw same (omega arith))
    ]

    resume-AtMost :
        (r : Poll WakeUp) (s : Semaphore W)
        → AtMostWith (suc (waiters s)) (resume (try_of steal) p n cx r s)
    unfolding resume
    resume-AtMost pending s = omega arith
    resume-AtMost (ready unfair_woken) s = woken_unfair-AtMost s
    resume-AtMost (ready (fair_grant g)) s = omega arith

    found-AtMost :
        (will_wake : W → W → Bool) (s : Semaphore W) {x : Option (Poll WakeUp × Queue ℕ WakeUp W)}
        → Polled will_wake p cx s.waiters x
        → AtMostWith (suc (waiters s)) (resume_found (try_of steal) p n cx s x)
    unfolding resume_found resume
    found-AtMost will_wake s missing = tt
    found-AtMost will_wake s waits =
        omega (arith, length-update (repoll will_wake cx) p s.waiters.waiting)
    found-AtMost will_wake s (ends o h) = resume-AtMost (ready o) (record s { waiters = _ })

    pub acquire_poll-AtMost :
        (will_wake : W → W → Bool) (s : Semaphore W)
        → AtMostWith (suc (waiters s)) (acquire_poll will_wake (try_of steal) p n cx s)
    unfolding acquire_poll
    acquire_poll-AtMost will_wake s =
        found-AtMost will_wake s (poll-Polled p s.waiters will_wake cx)
