-- ===== src/OnceCell/Pointers/Tests.antt =====
-- Calls of a cell over the memory of its wait list, by hand.
use unsync.Prelude.{ℕ, ◌≡◌, refl, Bool, false, some, returns, panic, List, [], ◌∷◌, ◌==◌}
use unsync.Prelude.Histories.{calls}
use unsync.WaitList.Spec.{empty, start, find_done, remove_done, find_input, remove}
use unsync.WaitList.Spec
use unsync.OnceCell.{
  OnceCell, initialized, waiting, leading, finished, set_initializing, new, get, get_state, set,
  set_in, init_start, init_start_in, init_poll, init_found, init_handed, init_succeeds, init_fails,
  drop_baton, drop_baton_in, leftover, init_drop, drop_found,
}
use unsync.OnceCell.Pointers.{cells_new}
use unsync.OnceCell.Pointers.Stands.{Ends}
use unsync.OnceCell.Pointers.Calls.{
  Call, gets, sets, starts, polls, succeeds, fails, drops, Reply, got, tried, went, ended, done,
  call, promised,
}
use unsync.OnceCell.Pointers.Calls.Panics.{foretold, then_foretold, is_unreachable, foretold-Comes}

abbrev same : ℕ → ℕ → Bool
same a b = a == b

-- The first future leads, those at 20, 30 and 40 wait. The first fails, so that the one at 20 is handed
-- the baton; it is dropped before it sees it, and the one at 30 leads. Its value wakes the last.
abbrev story : List (Call ℕ ℕ)
story =
    starts 10 101
    ∷ starts 20 102
    ∷ starts 30 103
    ∷ starts 40 104
    ∷ sets 8
    ∷ fails
    ∷ drops 20
    ∷ polls 30 103
    ∷ polls 40 104
    ∷ succeeds 7
    ∷ polls 40 104
    ∷ gets
    ∷ []

abbrev told : List (Reply ℕ)
told =
    went leading
    ∷ went waiting
    ∷ went waiting
    ∷ went waiting
    ∷ tried (set_initializing 8)
    ∷ done
    ∷ done
    ∷ went leading
    ∷ went waiting
    ∷ ended 7
    ∷ went (finished 7)
    ∷ got (some 7)
    ∷ []

abbrev at_last : OnceCell ℕ ℕ
at_last = record {
  state = initialized 7;
  waiters = record { waiting = []; done = []; woken = 104 ∷ 103 ∷ 102 ∷ [] };
}

foretold-story : foretold same story new ≡ some (returns told at_last)
unfolding foretold then_foretold is_unreachable promised new empty start find_done remove_done
    find_input remove get get_state set set_in init_start init_start_in init_poll init_found
    init_handed init_succeeds init_fails drop_baton drop_baton_in leftover init_drop drop_found
    Spec.poll Spec.drop Spec.wake_one
foretold-story = refl

foretold-Comes_example : Ends told at_last false (calls (call same 12) story cells_new)
foretold-Comes_example = foretold-Comes same story foretold-story

-- Two ends of an initializer of which only one began, so that the baton comes to a cell that is `Uninit`.
abbrev twice_failed : List (Call ℕ ℕ)
twice_failed = starts 10 101 ∷ starts 20 102 ∷ fails ∷ fails ∷ polls 20 102 ∷ []

foretold-twice_failed : foretold same twice_failed new ≡ some panic
unfolding foretold then_foretold is_unreachable promised new empty start find_done init_start
    init_start_in init_fails drop_baton drop_baton_in leftover Spec.wake_one
foretold-twice_failed = refl

panics : calls (call same 5) twice_failed cells_new ≡ panic
panics = foretold-Comes same twice_failed foretold-twice_failed
