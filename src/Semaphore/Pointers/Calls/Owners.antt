-- ===== src/Semaphore/Pointers/Calls/Owners.antt =====
-- The runs of a semaphore with all that its callers hold, over the memory of the wait list.
use unsync.Prelude.{
  ℕ, ◌+◌, ◌<◌, ◌≡◌, refl, Bool, returns, true, false, some, Option, List, [], ◌∷◌, ◌++◌, arith,
  length,
}
use unsync.Prelude.Histories.{calls, promises, promises-snoc}
use unsync.Utils.{word_mod}
use unsync.Semaphore.{Semaphore, new, contend, fair, unfair, drop_permit, release_fair}
use unsync.Semaphore.Release.{granted}
use unsync.Semaphore.System.{
  try_of, System, Step, Reach, begins, goes, adds, tries, starts, polls, drops, gives_back,
  gives_back_fairly, leaks,
}
use unsync.Semaphore.System.Accounts.{sum}
use unsync.Semaphore.System.Steps.{Reach-IsSound}
use unsync.Semaphore.Pointers.{Cells, cells_new}
use unsync.Semaphore.Pointers.Calls.{Call, Reply, call, promised}
use unsync.Semaphore.Pointers.Calls.Runs.{calls-Ends}

-- The promise answers a call, and comes to `t`.
abbrev Answered : {W : Type 0} → Option (Reply × Semaphore W) → Semaphore W → Type 0
Answered x t = (r : Reply) × (x ≡ some (r, t))

module _ {W : Type 0} {will_wake : W → W → Bool} where
  -- The calls that the owners make.
  abbrev pub call_of : {s t : System W} → Step will_wake s t → Call W
  call_of (adds fairness n sem h e) = Call.adds fairness n
  call_of (tries steal n sem h e) = Call.tries steal n
  call_of (starts steal p n cx out fresh e) = Call.first_poll steal p n cx
  call_of {s = s} (polls steal p cx r sem h e) = Call.later_poll steal p (s.wants p) cx
  call_of (drops p sem h e) = Call.cancel p
  call_of (gives_back n xs ys sem k h e) = Call.gives_back unfair n
  call_of (gives_back_fairly n xs ys sem k h e) = Call.gives_back fair n
  call_of (leaks n xs ys k e) = Call.leaks n

  abbrev pub calls_of : {n : ℕ} {s : System W} → Reach will_wake n s → List (Call W)
  calls_of begins = []
  calls_of (goes r step) = calls_of r ++ (call_of step ∷ [])

  call_of-Answered :
      {s t : System W} (step : Step will_wake s t)
      → Answered (promised will_wake (call_of step) s.sem) t.sem
  unfolding promised drop_permit release_fair
  call_of-Answered (adds fairness n sem h e) = (Reply.done, rw (e, h) refl)
  call_of-Answered (tries steal n sem h e) = (Reply.tried true, rw (e, h) refl)
  call_of-Answered {s = s} (starts steal p n cx out fresh e) =
      (Reply.polled (contend (try_of steal) p n cx s.sem).0, rw (e, out, fresh) refl)
  call_of-Answered (polls steal p cx r sem h e) = (Reply.polled r, rw (e, h) refl)
  call_of-Answered (drops p sem h e) = (Reply.done, rw (e, h) refl)
  call_of-Answered (gives_back n xs ys sem k h e) = (Reply.done, rw (e, h) refl)
  call_of-Answered (gives_back_fairly n xs ys sem k h e) = (Reply.done, rw (e, h) refl)
  call_of-Answered (leaks n xs ys k e) = (Reply.done, rw e refl)

module _ {W : Type 0} (will_wake : W → W → Bool) where
  calls_of-Answered :
      (n : ℕ) {s : System W} (r : Reach will_wake n s)
      → (rs : List Reply) × (promises (promised will_wake) (calls_of r) (new n) ≡ some (rs, s.sem))
  unfolding promises
  calls_of-Answered n begins = ([], refl)
  calls_of-Answered n (goes {s} {t} r step) =
      let (rs, h) = calls_of-Answered n r in
      let (a, k) = call_of-Answered step in
      (
        rs ++ (a ∷ []),
        promises-snoc (promised will_wake) (calls_of r) (call_of step) (new n) s.sem t.sem h k,
      )

  -- Whatever the owners of a new semaphore of fewer than 2 ^ 64 permits, of its futures and of its
  -- permits do, in whatever order, where no addition of permits panics: their calls return, run
  -- over the memory of the wait list; the list is not borrowed afterwards; and the counts in that
  -- memory are right: the available permits, those granted to woken futures and those that callers
  -- hold are together the total.
  pub Reach-Ends :
      (n : ℕ)
      → n < word_mod
      → {s : System W} (r : Reach will_wake n s)
      → (rs : List Reply) × ((m : Cells W) × (calls
              (call will_wake (length (calls_of r)))
              (calls_of r)
              (cells_new n)
            ≡ returns rs m)
          × (m.waiters.borrowed ≡ false)
          × (m.permits + granted s.sem.waiters.done + sum s.held ≡ m.total_permits))
  Reach-Ends n small {s} r =
      let (rs, h) = calls_of-Answered n r in
      let k = calls-Ends will_wake n (calls_of r) h in
      let v = Reach-IsSound will_wake n small r in
      (
        rs,
        (
          k.after,
          k.run,
          k.borrowed,
          omega (arith, v.accounts, k.stands.permits, k.stands.total_permits),
        ),
      )
