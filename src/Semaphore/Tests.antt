-- ===== src/Semaphore/Tests.antt =====
-- Runs of the semaphore, its theorems at concrete calls, and a wake that nobody passes on.
use unsync.Prelude.{
  List, length, returns, ℕ, ◌<◌, ◌≡◌, ◌≢◌, refl, ap, is_some, ◌+◌, arith, Bool, true, false, none,
  some, [], ◌∷◌, Poll, ◌==◌, if◌then◌else◌,
}
use unsync.Utils.{wrapping_add}
use unsync.WaitList.{Ptr}
use unsync.WaitList.Links.{Entry}
use unsync.WaitList.Spec.{Queue, empty, remove, head_input, find_done, remove_done, start}
use unsync.WaitList.Spec
use unsync.Semaphore.{
  fair, fair_grant, Semaphore, new, release_permits, acquire_poll, acquire_drop, contend,
  add_permits_with, try_acquire, try_acquire_unfair,
}
use unsync.Semaphore.Release.{Knows, Released, release_permits-Released}
use unsync.Semaphore.Order.{Serves, release_permits-Serves}
use unsync.Semaphore.Acquire.{handed_out}
use unsync.Semaphore.Promises.{
  HandsOut, acquire_poll-HandsOut, acquire_drop-HandsOut, acquire_drop-strands,
}
use unsync.Semaphore.Pointers.{Cells, cells_new}
use unsync.Prelude.Histories.{calls}
use unsync.Semaphore.Pointers.Calls.{Reply, call}
use unsync.Semaphore.Pointers.Calls.Owners.{calls_of, Reach-Ends}
use unsync.Semaphore.System.{Reach, begins, goes, System, initial, try_of, Step, adds, starts}
use unsync.Semaphore.System.Accounts.{IsSound}
use unsync.Semaphore.System.Steps.{Reach-IsSound, CalmReach-blocked}
use unsync.Semaphore.Waiters.{wanting}

abbrev same : ℕ → ℕ → Bool
same a b = a == b

-- One permit; the future at 20 waits for 3, behind it the one at 30 for 1.
abbrev a : Entry ℕ ℕ
a = record { ptr = 20; input = 3; waker = 102 }

abbrev b : Entry ℕ ℕ
b = record { ptr = 30; input = 1; waker = 103 }

abbrev parked : Semaphore ℕ
parked = record {
  waiters = record { waiting = a ∷ b ∷ []; done = []; woken = [] };
  permits = 1;
  total_permits = 1;
}

abbrev wants : Ptr → ℕ
wants p = if p == 20 then 3 else 1

wants_known : Knows wants parked
wants_known = record { inputs = (refl, (refl, tt)); grants = tt }

-- Of four permits, the fair release leaves none to the wakes that are on their way.
release_permits-Released_example :
    (t : Semaphore ℕ) × (release_permits 4 fair parked ≡ some t)
    × Released wants (record parked { permits = 5 }) t
release_permits-Released_example =
    release_permits-Released wants 4 fair parked wants_known (omega arith)

released :
    release_permits 4 fair parked
    ≡ some (record {
      waiters = record {
        waiting = [];
        done = (30, fair_grant 1) ∷ (20, fair_grant 3) ∷ [];
        woken = 103 ∷ 102 ∷ [];
      };
      permits = 1;
      total_permits = 1;
    })
unfolding release_permits
released = refl

-- The future at 20 was granted its permits, and the one at 30 waits on.
abbrev granting : Semaphore ℕ
granting = record {
  waiters = record { waiting = b ∷ []; done = (20, fair_grant 3) ∷ []; woken = [] };
  permits = 0;
  total_permits = 3;
}

known : Knows wants granting
known = record { inputs = (refl, tt); grants = (refl, tt) }

polled_there : Spec.poll same 20 102 granting.waiters ≢ none
unfolding Spec.poll find_done remove_done
polled_there h = let e : true ≡ false = ap is_some h in cc

dropped_there : Spec.drop 20 granting.waiters ≢ none
unfolding Spec.drop find_done remove_done Spec.find_input
dropped_there h = let e : true ≡ false = ap is_some h in cc

acquire_poll-HandsOut_example :
    (r : Poll ℕ) × (t : Semaphore ℕ) × (acquire_poll same (try_of true) 20 3 102 granting
      ≡ some (r, t))
    × HandsOut wants (handed_out r) granting t
acquire_poll-HandsOut_example =
    acquire_poll-HandsOut wants same true 20 102 granting polled_there known (omega arith)
      (omega arith)

acquire_drop-HandsOut_example :
    (t : Semaphore ℕ) × (acquire_drop 20 granting ≡ some t) × HandsOut wants 0 granting t
unfolding remove
acquire_drop-HandsOut_example =
    acquire_drop-HandsOut wants 20 granting dropped_there known (omega arith) (omega arith)

acquire_drop-strands_example :
    let t : Semaphore ℕ = record parked {
      waiters = record { waiting = b ∷ []; done = []; woken = [] };
    } in
    (acquire_drop 20 parked ≡ some t) × (try_acquire_unfair 1 t ≢ none)
acquire_drop-strands_example = acquire_drop-strands a b [] parked refl (omega arith)

-- From one permit on: a future waits for three, one for one, and two permits are added fairly.
abbrev one : System ℕ
one = initial 1

abbrev two : System ℕ
two = record {
  sem = record {
    waiters = record { waiting = a ∷ []; done = []; woken = [] };
    permits = 1;
    total_permits = 1;
  };
  wants = wanting one.wants 20 3;
  held = [];
}

abbrev three : System ℕ
three = record { sem = parked; wants = wanting two.wants 30 1; held = [] }

abbrev four : System ℕ
four = record three {
  sem = record {
    waiters = record { waiting = b ∷ []; done = (20, fair_grant 3) ∷ []; woken = 102 ∷ [] };
    permits = 0;
    total_permits = 3;
  };
}

to_two : Step same one two
unfolding new empty find_done contend try_acquire
to_two = starts false 20 3 102 refl refl refl

to_three : Step same two three
unfolding find_done contend try_acquire
to_three = starts false 30 1 103 refl refl refl

to_four : Step same three four
unfolding add_permits_with
to_four = adds fair 2 four.sem refl refl

abbrev reached : Reach same 1 four
reached = goes (goes (goes begins to_two) to_three) to_four

Reach-IsSound_example : IsSound four
Reach-IsSound_example = Reach-IsSound same 1 (omega arith) reached

Reach-Ends_example :
    (rs : List Reply) × ((m : Cells ℕ) × (calls
          (call same (length (calls_of reached)))
          (calls_of reached)
          (cells_new 1)
        ≡ returns rs m)
      × (m.waiters.borrowed ≡ false)
      × (m.permits + 3 + 0 ≡ m.total_permits))
Reach-Ends_example = Reach-Ends same 1 (omega arith) reached

CalmReach-blocked_example : 0 < 1 + 0
unfolding to_two to_three to_four
CalmReach-blocked_example =
    CalmReach-blocked same 1 (omega arith) {s = four}
      (goes (goes (goes begins to_two tt) to_three tt) to_four tt) b [] refl

-- Three more permits are enough for the first, and then for the second.
release_permits-Serves_example :
    (t : Semaphore ℕ) × (release_permits 3 fair parked ≡ some t)
    × Serves fair 4 (record parked { permits = 4 }) t
unfolding wrapping_add
release_permits-Serves_example = release_permits-Serves 3 fair parked
