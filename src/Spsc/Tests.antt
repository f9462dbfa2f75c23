-- ===== src/Spsc/Tests.antt =====
-- Runs of the channel, its theorems at concrete calls, and a buffer that is larger than asked for.
use unsync.Prelude.{
  ◌≤◌, err, ℕ, ◌+◌, ◌≡◌, refl, true, false, Bool, none, some, [], ◌∷◌, arith, ◌==◌, ◌&&◌, returns,
}
use unsync.Utils.{Allocator, with_capacity}
use unsync.Utils.Sleepers.{nobody, sleeper}
use unsync.BiRc.{World, new}
use unsync.Spsc.Fill.{try_sends, accepted, try_sends-fill}
use unsync.Spsc.{Shared, channel, unbounded, try_send, send_poll, recv_poll, at_capacity}
use unsync.Spsc.System.{
  System, calls_try_send, calls_send, polls_send, polls_recv, admits, opened, step, Reach, begins,
  goes,
}
use unsync.Spsc.System.Sound.{IsSound}
use unsync.Spsc.System.Runs.{step-Goes, channel-IsSound, channel-wakeful, unbounded-IsSound}

abbrev task : ℕ → ℕ
task w = w

abbrev same : ℕ → ℕ → Bool
same v w = v == w

same-task : (v w : ℕ) → same v w ≡ true → task v ≡ task w
same-task v w h = ground arith

-- This one allocates what it is asked for.
abbrev exact : Allocator
exact = record {
  with_capacity = λ n. n;
  grow = λ n. n + 4;
  with_capacity-ge = λ n. omega arith;
  grow-gt = λ n. omega arith;
}

abbrev empty : Shared ℕ ℕ
empty = record {
  tx = none;
  rx = none;
  buf = record { items = []; capacity = 1 };
  unbounded = false;
}

abbrev one_room : World (Shared ℕ ℕ) ℕ
one_room = record { memory = some (record { value = empty; count = 2 }); woken = [] }

one_room-channel : channel exact 1 ≡ some one_room
unfolding channel new with_capacity
one_room-channel = refl

-- 7 fills the channel, and the send of 8 sleeps.
abbrev full : Shared ℕ ℕ
full = record {
  tx = some 201;
  rx = none;
  buf = record { items = 7 ∷ []; capacity = 1 };
  unbounded = false;
}

abbrev blocked : System ℕ ℕ
blocked = record {
  memory = some (record { value = full; count = 2 });
  sender = true;
  receiver = true;
  log = record {
    sending = some 8;
    tx_asleep = some 201;
    rx_asleep = none;
    accepted = 7 ∷ [];
    received = [];
  };
}

blocked-Reach : Reach task exact same (opened one_room) blocked
unfolding admits step try_send send_poll
blocked-Reach =
    goes (polls_send 201) (goes (calls_send 8) (goes (calls_try_send 7) begins refl refl) refl refl)
      refl refl

-- The receiver takes 7 out, and wakes the sender.
popped :
    step task exact same blocked (polls_recv 301)
    ≡ some (record {
      memory =
          some (record {
            value = record full { buf = record { items = []; capacity = 1 } };
            count = 2;
          });
      sender = true;
      receiver = true;
      log = record {
        sending = some 8;
        tx_asleep = none;
        rx_asleep = none;
        accepted = 7 ∷ [];
        received = 7 ∷ [];
      };
    })
unfolding step recv_poll
popped = refl

channel-IsSound_example : (inner : Shared ℕ ℕ) × IsSound task (some 1) inner blocked
channel-IsSound_example =
    channel-IsSound task exact same same-task 1 one_room one_room-channel blocked-Reach

channel-wakeful_example : (true && false) ≡ false
channel-wakeful_example =
    channel-wakeful task exact same same-task 1 one_room one_room-channel blocked-Reach

blocked-IsSound : IsSound task (some 1) full blocked
unfolding at_capacity
blocked-IsSound = record {
  memory = refl;
  order = refl;
  capacity = (refl, refl, omega arith);
  sending = refl;
  tx = sleeper 201 (refl, refl, refl) refl refl;
  rx = nobody;
}

step-Goes_example :
    (inner : Shared ℕ ℕ) × ((t : System ℕ ℕ) × (step task exact same blocked (polls_recv 301)
        ≡ some t)
      × IsSound task (some 1) inner t)
unfolding admits
step-Goes_example =
    step-Goes task exact same same-task (some 1) full blocked (polls_recv 301) refl blocked-IsSound

abbrev grown : System ℕ ℕ
grown = record {
  memory = some (record {
    value = record {
      tx = none;
      rx = none;
      buf = record { items = 7 ∷ []; capacity = 4 };
      unbounded = true;
    };
    count = 2;
  });
  sender = true;
  receiver = true;
  log = record {
    sending = none;
    tx_asleep = none;
    rx_asleep = none;
    accepted = 7 ∷ [];
    received = [];
  };
}

grown-Reach : Reach task exact same (opened unbounded) grown
unfolding admits step try_send unbounded new
grown-Reach = goes (calls_try_send 7) begins refl refl

unbounded-IsSound_example : (inner : Shared ℕ ℕ) × IsSound task none inner grown
unbounded-IsSound_example = unbounded-IsSound task exact same same-task grown-Reach

-- This one allocates a place more than it is asked for.
abbrev ample : Allocator
ample = record {
  with_capacity = λ n. n + 1;
  grow = λ n. n + 4;
  with_capacity-ge = λ n. omega arith;
  grow-gt = λ n. omega arith;
}

-- A channel of capacity 3 takes a fourth message.
try_sends-fill_example :
    (s : World (Shared ℕ ℕ) ℕ) × ((t : World (Shared ℕ ℕ) ℕ) × (channel ample 3 ≡ some s)
      × (try_sends ample (1 ∷ 2 ∷ 3 ∷ 4 ∷ []) s ≡ returns (accepted (1 ∷ 2 ∷ 3 ∷ 4 ∷ [])) t)
      × (try_send ample 5 t ≡ returns (err 5) t)
      × (3 ≤ 4))
try_sends-fill_example = try_sends-fill ample 3 (1 ∷ 2 ∷ 3 ∷ 4 ∷ []) 5 (omega arith) (omega arith)
