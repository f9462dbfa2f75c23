-- ===== src/Oneshot/Tests.antt =====
-- Runs of the oneshot channel, and its theorems at concrete calls.
use unsync.Prelude.{ℕ, ◌≡◌, refl, true, false, Bool, none, some, [], ◌∷◌, arith, ◌==◌}
use unsync.BiRc.{new}
use unsync.Utils.Sleepers.{nobody}
use unsync.Oneshot.{Shared, channel, send, poll}
use unsync.Oneshot.System.{System, calls_send, polls, admits, opened, step, Reach, begins, goes}
use unsync.Oneshot.System.Sound.{IsSound}
use unsync.Oneshot.System.Runs.{opened-IsSound, call-Goes}

-- A waker is the number of the task that it wakes.
abbrev task : ℕ → ℕ
task w = w

abbrev same : ℕ → ℕ → Bool
same v w = v == w

same-task : (v w : ℕ) → same v w ≡ true → task v ≡ task w
same-task v w h = ground arith

-- The receiver sleeps, and the message 5 wakes it.
abbrev parked : System ℕ ℕ
parked = record {
  memory = some (record { value = record { waker = some 101; buf = none }; count = 2 });
  sender = true;
  receiver = true;
  log = record { asleep = some 101; accepted = []; received = [] };
}

abbrev sent : System ℕ ℕ
sent = record {
  memory = some (record { value = record { waker = none; buf = some 5 }; count = 1 });
  sender = false;
  receiver = true;
  log = record { asleep = none; accepted = 5 ∷ []; received = [] };
}

parked-Reach : Reach task same parked
unfolding opened channel new admits step poll
parked-Reach = goes (polls 101) begins refl refl

sent-Reach : Reach task same sent
unfolding admits step send
sent-Reach = goes (calls_send 5) parked-Reach refl refl

opened-IsSound_example : (inner : Shared ℕ ℕ) × IsSound task inner sent
opened-IsSound_example = opened-IsSound task same same-task sent-Reach

abbrev slot : Shared ℕ ℕ
slot = record { waker = none; buf = some 5 }

sent-IsSound : IsSound task slot sent
sent-IsSound = record { memory = refl; order = refl; once = omega arith; rx = nobody }

call-Goes_example :
    (inner : Shared ℕ ℕ) × ((t : System ℕ ℕ) × (step task same sent (polls 101) ≡ some t)
      × IsSound task inner t)
unfolding admits
call-Goes_example = call-Goes task same same-task slot sent (polls 101) refl sent-IsSound
