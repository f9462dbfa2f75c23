-- ===== src/Semaphore/Pointers/Tests.antt =====
-- Calls of a semaphore over the memory of its wait list, by hand.
use unsync.Prelude.{ℕ, ◌≡◌, refl, Bool, true, false, some, List, [], ◌∷◌, ready, pending, ◌==◌}
use unsync.Prelude.Histories.{calls, promises}
use unsync.WaitList.Spec.{Queue, empty, start, find_done, remove_done, find_input, remove}
use unsync.WaitList.Spec
use unsync.Semaphore.{
  Semaphore, new, fair, unfair, add_permits_with, release_permits, try_acquire, try_acquire_unfair,
  contend, acquire_poll, acquire_drop, leak,
}
use unsync.Semaphore.Pointers.{cells_new}
use unsync.Semaphore.Pointers.Stands.{Ends}
use unsync.Semaphore.Pointers.Calls.{
  Call, adds, tries, first_poll, later_poll, cancel, gives_back, leaks, counts, Reply, done, tried,
  polled, counted, call, promised,
}
use unsync.Semaphore.Pointers.Calls.Runs.{calls-Ends}

abbrev same : ℕ → ℕ → Bool
same a b = a == b

-- From one permit on, the future at 20 waits for 3 permits, behind it the one at 30 for 1. Three
-- more permits wake both, but all four are taken before the woken ones are polled: the first waits
-- again, the second is dropped. The permits come back, and the first ends.
abbrev story : List (Call ℕ)
story =
    first_poll false 20 3 102
    ∷ first_poll false 30 1 103
    ∷ adds unfair 3
    ∷ tries true 4
    ∷ later_poll false 20 3 102
    ∷ cancel 30
    ∷ gives_back fair 4
    ∷ later_poll false 20 3 102
    ∷ counts
    ∷ leaks 3
    ∷ counts
    ∷ []

abbrev told : List Reply
told =
    polled pending
    ∷ polled pending
    ∷ done
    ∷ tried true
    ∷ polled pending
    ∷ done
    ∷ done
    ∷ polled (ready 3)
    ∷ counted 1 4
    ∷ done
    ∷ counted 1 1
    ∷ []

abbrev at_last : Semaphore ℕ
at_last = record {
  waiters = record { waiting = []; done = []; woken = 102 ∷ 103 ∷ 102 ∷ [] };
  permits = 1;
  total_permits = 1;
}

promised-story : promises (promised same) story (new 1) ≡ some (told, at_last)
unfolding promises promised new empty start find_done remove_done find_input remove contend
    try_acquire add_permits_with acquire_poll acquire_drop leak Spec.poll Spec.drop release_permits
    try_acquire_unfair
promised-story = refl

calls-Ends_example : Ends told at_last false (calls (call same 11) story (cells_new 1))
calls-Ends_example = calls-Ends same 1 story promised-story
