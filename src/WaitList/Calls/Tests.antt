-- ===== src/WaitList/Calls/Tests.antt =====
-- Runs of the wait list, and its theorems at concrete calls.
use unsync.Prelude.{
  ℕ, ◌+◌, ◌≡◌, refl, Bool, false, some, List, [], ◌∷◌, ready, pending, ok, err, ◌==◌,
}
use unsync.WaitList.{
  input, output, returns, panic, abort, new, borrow, try_borrow, drop_borrowed, wait_inner_new,
  wait_inner_drop, World,
}
use unsync.WaitList.Borrow.{borrow-excludes}
use unsync.WaitList.Links.{Entry}
use unsync.WaitList.Refine.{Reaches}
use unsync.WaitList.Spec.{
  Queue, empty, find_done, find_input, remove, remove_done, head_input, change_head,
}
use unsync.Prelude.Histories.{calls, promises}
use unsync.WaitList.Calls.{
  Call, first_poll, later_poll, cancel, wake, look, change, Reply, polled, cancelled, woke, looked,
  call, promised,
}
use unsync.WaitList.Calls.Cells.{CellOf, calls-CellOf}
use unsync.WaitList.Calls.Total.{calls-Reaches}

-- Wakers are numbers, equal if they wake the same task.
abbrev same : ℕ → ℕ → Bool
same a b = a == b

-- Three futures wait; the second is dropped, the others are woken, and the first ends.
abbrev history : List (Call ℕ ℕ ℕ)
history =
    first_poll 10 1 101
    ∷ first_poll 20 2 102
    ∷ first_poll 30 3 103
    ∷ later_poll 30 113
    ∷ change (λ i. i + 4)
    ∷ look
    ∷ cancel 20
    ∷ wake 7
    ∷ wake 8
    ∷ wake 9
    ∷ later_poll 10 101
    ∷ cancel 30
    ∷ []

abbrev replies : List (Reply ℕ ℕ)
replies =
    polled pending
    ∷ polled pending
    ∷ polled pending
    ∷ polled pending
    ∷ looked (some 1)
    ∷ looked (some 5)
    ∷ cancelled (input 2)
    ∷ woke (ok 5)
    ∷ woke (ok 3)
    ∷ woke (err 9)
    ∷ polled (ready 7)
    ∷ cancelled (output 8)
    ∷ []

abbrev ended : Queue ℕ ℕ ℕ
ended = record { waiting = []; done = []; woken = 113 ∷ 101 ∷ [] }

hipromised-story : promises (promised same) history empty ≡ some (replies, ended)
unfolding promises promised empty find_done find_input remove remove_done head_input change_head
hipromised-story = refl

calls-Reaches_example : Reaches replies ended false (calls (call same) history new)
calls-Reaches_example = calls-Reaches same history hipromised-story

abbrev second_waiter : Entry ℕ ℕ
second_waiter = record { ptr = 20; input = 2; waker = 102 }

-- Two futures wait; the first is woken, and has not been polled again.
abbrev woken_calls : List (Call ℕ ℕ ℕ)
woken_calls = first_poll 10 1 101 ∷ first_poll 20 2 102 ∷ wake 7 ∷ []

abbrev woken_replies : List (Reply ℕ ℕ)
woken_replies = polled pending ∷ polled pending ∷ woke (ok 1) ∷ []

abbrev then_woken : Queue ℕ ℕ ℕ
then_woken = record { waiting = second_waiter ∷ []; done = (10, 7) ∷ []; woken = 101 ∷ [] }

woken_promised : promises (promised same) woken_calls empty ≡ some (woken_replies, then_woken)
unfolding promises promised empty find_done
woken_promised = refl

calls-CellOf_example :
    (s : World ℕ ℕ ℕ) × (calls (call same) woken_calls new ≡ returns woken_replies s)
    × CellOf then_woken 10 (s.cells 10)
calls-CellOf_example = calls-CellOf same woken_calls woken_promised 10

borrow-excludes_example :
    (t : World ℕ ℕ ℕ) × (borrow (new {W = ℕ}) ≡ returns tt t)
    × (try_borrow t ≡ returns false t)
    × (borrow t ≡ panic)
    × (wait_inner_new 10 t ≡ panic)
    × (wait_inner_drop 10 t ≡ abort)
    × (drop_borrowed t ≡ returns tt new)
unfolding new
borrow-excludes_example = borrow-excludes 10 new refl
