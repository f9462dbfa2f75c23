-- ===== src/Semaphore/System/Steps.antt =====
-- Every step keeps the accounts, and every run.
use unsync.Prelude.{
  ℕ, ◌+◌, ◌-◌, ◌<◌, ◌≡◌, refl, subst, Bool, false, some, none, List, ◌∷◌, arith, Poll, pending,
}
use unsync.Utils.{word_mod}
use unsync.WaitList.{Ptr}
use unsync.WaitList.Links.{Entry, has}
use unsync.WaitList.Spec.{find_done}
use unsync.Semaphore.{
  fair, unfair, Semaphore, new, contend, acquire_poll, acquire_drop, drop_permit, release_fair,
}
use unsync.Semaphore.Release.{owed, Blocked, Knows, IsSettled}
use unsync.Semaphore.Waiters.{
  wanting, owed-wanting, GrantsOf-wanting, InputsOf-wanting, Blocked-mono, Blocked-remove,
}
use unsync.Semaphore.Acquire.{Kept, handed_out}
use unsync.Semaphore.System.{
  begins, goes, System, try_of, receive, initial, Step, adds, tries, starts, polls, drops,
  gives_back, gives_back_fairly, leaks, IsFront, SparesFront, Reach, CalmReach,
}
use unsync.Semaphore.Acquire.{acquire_poll-Kept, contend-Kept}
use unsync.Semaphore.Cancel.{acquire_drop-Kept}
use unsync.Semaphore.System.Accounts.{
  try_of-Tries, IsSound, Next, add-Next, give-Next, leak-Next, Kept-Next,
}

module _ {W : Type 0} (will_wake : W → W → Bool) where
  module _ (s : System W) (v : IsSound s) where
    abbrev Calm : Type 0
    Calm = IsSettled s.wants s.sem

    try-Next :
        (steal : Bool) (n : ℕ) (sem : Semaphore W)
        → try_of steal n s.sem ≡ some sem
        → Next Calm (record s { sem = sem; held = n ∷ s.held })
    try-Next steal n sem h =
        let (enough, e) = (try_of-Tries steal).takes n s.sem sem h in
        rw e (record {
          sound = record {
            knows = record { inputs = v.knows.inputs; grants = v.knows.grants };
            accounts = omega (arith, v.accounts);
            small = v.small;
          };
          settled = λ c.
              Blocked-mono s.sem.permits (s.sem.permits - n) _ _ s.sem.waiters.waiting c
                (omega arith);
        })

    start-Next :
        (steal : Bool) (p : Ptr) (n : ℕ) (cx : W)
        → has p s.sem.waiters.waiting ≡ false
        → find_done p s.sem.waiters.done ≡ none
        → Next Calm (record {
          sem = (contend (try_of steal) p n cx s.sem).1;
          wants = wanting s.wants p n;
          held = receive (contend (try_of steal) p n cx s.sem).0 s.held;
        })
    start-Next steal p n cx out new =
        let wants' = wanting s.wants p n in
        let own : wants' p ≡ n = ground arith in
        let k : Knows wants' s.sem = record {
          inputs = InputsOf-wanting s.wants p n s.sem.waiters.waiting out v.knows.inputs;
          grants = GrantsOf-wanting s.wants p n s.sem.waiters.done new v.knows.grants;
        } in
        let kept =
          contend-Kept Calm wants' (try_of steal) (try_of-Tries steal) p cx s.sem k
            (λ c. rw (owed-wanting s.wants p n s.sem.waiters.done new) c) in
        Kept-Next s v Calm wants' (contend (try_of steal) p n cx s.sem).0 s.sem _
          (subst
            (λ m.
              let (r, t) = contend (try_of steal) p m cx s.sem in
              Kept Calm wants' (handed_out r) s.sem t)
            own kept)
          refl refl

    poll-Next :
        (steal : Bool) (p : Ptr) (cx : W) (r : Poll ℕ) (sem : Semaphore W)
        → acquire_poll will_wake (try_of steal) p (s.wants p) cx s.sem ≡ some (r, sem)
        → Next Calm (record s { sem = sem; held = receive r s.held })
    poll-Next steal p cx r sem h =
        Kept-Next s v Calm s.wants r s.sem sem
          (acquire_poll-Kept Calm s.wants (try_of steal) (try_of-Tries steal) p cx will_wake s.sem h
            v.knows (λ c. c) (omega (arith, v.accounts, v.small)))
          refl refl

    drop-Next :
        (p : Ptr) (sem : Semaphore W)
        → acquire_drop p s.sem ≡ some sem
        → Next (Calm × (¬ IsFront p s.sem.waiters.waiting)) (record s { sem = sem })
    drop-Next p sem h =
        Kept-Next s v (Calm × (¬ IsFront p s.sem.waiters.waiting)) s.wants pending s.sem sem
          (acquire_drop-Kept (Calm × (¬ IsFront p s.sem.waiters.waiting)) s.wants p s.sem h v.knows
            (λ c. Blocked-remove _ _ p s.sem.waiters.waiting c.1 c.0)
            (omega (arith, v.accounts, v.small)))
          refl refl

  Next-mono : {C D : Type 0} {t t' : System W} → t ≡ t' → (D → C) → Next C t' → Next D t
  Next-mono e f n = rw e (record { sound = n.sound; settled = λ d. n.settled (f d) })

  -- One call keeps the accounts; and if the front was blocked, it is blocked after it, unless the
  -- call drops the future at the front.
  pub Step-Next :
      (s t : System W) (step : Step will_wake s t)
      → IsSound s
      → Next (IsSettled s.wants s.sem × SparesFront s t step) t
  unfolding drop_permit release_fair
  Step-Next s t (adds fairness n sem h e) v = Next-mono e (λ c. c.0) (add-Next s v fairness n sem h)
  Step-Next s t (tries steal n sem h e) v = Next-mono e (λ c. c.0) (try-Next s v steal n sem h)
  Step-Next s t (starts steal p n cx out new e) v =
      Next-mono e (λ c. c.0) (start-Next s v steal p n cx out new)
  Step-Next s t (polls steal p cx r sem h e) v =
      Next-mono e (λ c. c.0) (poll-Next s v steal p cx r sem h)
  Step-Next s t (drops p sem h e) v = Next-mono e (λ c. c) (drop-Next s v p sem h)
  Step-Next s t (gives_back n xs ys sem k h e) v =
      Next-mono e (λ c. c.0) (give-Next s v unfair n xs ys sem k h)
  Step-Next s t (gives_back_fairly n xs ys sem k h e) v =
      Next-mono e (λ c. c.0) (give-Next s v fair n xs ys sem k h)
  Step-Next s t (leaks n xs ys k e) v = Next-mono e (λ c. c.0) (leak-Next s v n xs ys k)

  initial-IsSound : (n : ℕ) → n < word_mod → IsSound (initial {W = W} n)
  unfolding new
  initial-IsSound n small = record {
    knows = record { inputs = tt; grants = tt };
    accounts = omega arith;
    small = small;
  }

  initial-IsSettled : (n : ℕ) → IsSettled (initial {W = W} n).wants (initial {W = W} n).sem
  unfolding new
  initial-IsSettled n = tt

  -- Whatever is called from a new semaphore on, whose permits are fewer than 2 ^ 64, and in whatever
  -- order: the permits that are
  -- available, those granted to woken futures and those held by callers are together the total,
  -- and the total is a `usize`. So no permit is lost or made up by a cancelled future, and no
  -- addition of permits overflows.
  pub Reach-IsSound : (n : ℕ) → n < word_mod → {s : System W} → Reach will_wake n s → IsSound s
  Reach-IsSound n small begins = initial-IsSound n small
  Reach-IsSound n small (goes {s} {t} r step) = (Step-Next s t step (Reach-IsSound n small r)).sound

  calm-Next : (n : ℕ) → n < word_mod → {s : System W} → CalmReach will_wake n s → Next (Unit {0}) s
  calm-Next n small begins = record {
    sound = initial-IsSound n small;
    settled = λ c. initial-IsSettled n;
  }
  calm-Next n small (goes {s} {t} r step spares) =
      let before = calm-Next n small r in
      let next = Step-Next s t step before.sound in
      record { sound = next.sound; settled = λ c. next.settled (before.settled tt, spares) }

  -- In a run from a semaphore of fewer than 2 ^ 64 permits where no future is dropped while it waits
  -- at the front of the queue, nobody is left
  -- behind: if a future waits at the front, then the permits that are available, less what the
  -- futures want that an unfair wake is on its way to, are fewer than it wants.
  pub CalmReach-blocked :
      (n : ℕ)
      → n < word_mod
      → {s : System W} → CalmReach will_wake n s
      → (e : Entry ℕ W) (es : List (Entry ℕ W)) → s.sem.waiters.waiting ≡ e ∷ es
      → s.sem.permits < e.input + owed s.wants s.sem.waiters.done
  CalmReach-blocked n small {s} r e es h =
      let b = (calm-Next n small r).settled tt in
      let b' : Blocked s.sem.permits (owed s.wants s.sem.waiters.done) (e ∷ es) = rw h at b in b'
