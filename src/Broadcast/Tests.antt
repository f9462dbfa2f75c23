-- ===== src/Broadcast/Tests.antt =====
-- A send to three receivers and runs of the channel, and the theorems there.
use unsync.Prelude.{
  ℕ, ◌+◌, ◌≡◌, refl, true, false, Bool, Option, none, some, [], ◌∷◌, List, arith, ◌==◌, returns,
  err, pending,
}
use unsync.Utils.{Allocator}
use unsync.BroadRc.{Inner, new}
use unsync.BroadRc.Handles.{shared_by}
use unsync.Broadcast.Slab.{SlabOf, visit}
use unsync.Broadcast.Slab.Rows.{rows, rows-IsLawful}
use unsync.Broadcast.{
  ReceiverState, Shared, World, deliver, at_capacity, bump_message_id, channel, unbounded, opened,
  subscribers, try_send, send_start, send_poll, recv_poll,
}
use unsync.Broadcast.Deliver.{holders, Delivered, Tried, deliver-Delivered}
use unsync.Broadcast.System.{
  System, subscribes, calls_try_send, calls_send, polls_send, polls_recv, drops_sender,
  drops_receiver, admits, opened_by, step, Reach, begins, goes,
}
use unsync.Broadcast.System.Sound.{IsSound}
use unsync.Broadcast.System.Runs.{
  broadcast_call-Goes, broadcast-IsSound, broadcast_unbounded-IsSound,
}
use unsync.Broadcast.System.Promises.{Gets, sleeping_send-Gets}
use unsync.Broadcast.System.Returns.{try_send-rooms, send_poll-takers}

abbrev task : ℕ → ℕ
task w = w

abbrev same : ℕ → ℕ → Bool
same v w = v == w

same-task : (v w : ℕ) → same v w ≡ true → task v ≡ task w
same-task v w h = ground arith

-- This one allocates what it is asked for.
abbrev exact : Allocator
exact = record {
  with_capacity = λ n. n;
  grow = λ n. n + 4;
  with_capacity-ge = λ n. omega arith;
  grow-gt = λ n. omega arith;
}

-- One holds message 7 already, one is full, one sleeps and has room.
abbrev holder : ReceiverState ℕ ℕ
holder = record {
  id = 7;
  waker = none;
  buf = record { items = 5 ∷ []; capacity = 2 };
  unbounded = false;
}

abbrev full : ReceiverState ℕ ℕ
full = record {
  id = 6;
  waker = none;
  buf = record { items = 3 ∷ 4 ∷ []; capacity = 2 };
  unbounded = false;
}

abbrev sleeping : ReceiverState ℕ ℕ
sleeping = record {
  id = 6;
  waker = some 101;
  buf = record { items = []; capacity = 2 };
  unbounded = false;
}

abbrev receivers : List (ℕ × ReceiverState ℕ ℕ)
receivers = (0, holder) ∷ (2, full) ∷ (1, sleeping) ∷ []

sent : visit (deliver exact 7 5) receivers (0, []) ≡ (
  (0, holder)
      ∷ (2, full)
      ∷ (1, record sleeping { id = 7; buf = record { items = 5 ∷ []; capacity = 2 } })
      ∷ [],
  (2, 101 ∷ []),
)
unfolding deliver
sent = refl

deliver-Delivered_example :
    let (ts, (n, ws)) = visit (deliver exact 7 5) receivers (0, []) in
    Delivered 7 5 receivers ts × (n ≡ holders 7 ts)
deliver-Delivered_example = deliver-Delivered exact 7 5 receivers []

abbrev slab : SlabOf (ReceiverState ℕ ℕ)
slab = rows

abbrev three : Shared slab
three = record { id = 7; sender = none; receivers = receivers; capacity = some 2 }

abbrev three_memory : Option (Inner (Shared slab))
three_memory = shared_by three (record { sender = true; receivers = 3 })

-- The full one does not get the message.
try_send-rooms_example :
    (rs : slab.Slab) × ((ws : List ℕ) × (try_send exact 9
          (record { memory = three_memory; woken = [] })
        ≡ returns (err 2) (record {
          memory =
              shared_by
                (record three { id = 8; receivers = rs })
                (record { sender = true; receivers = 3 });
          woken = ws;
        }))
      × Tried 9 receivers (slab.items rs))
unfolding at_capacity bump_message_id
try_send-rooms_example = try_send-rooms exact rows-IsLawful three 9 []

send_poll-takers_example :
    (w : World slab) × (send_poll exact same 9 201 (record { memory = three_memory; woken = [] })
      ≡ returns pending w)
unfolding at_capacity
send_poll-takers_example = send_poll-takers exact rows-IsLawful same three 9 201 []

counted :
    subscribers (record { memory = three_memory; woken = [] })
    ≡ returns 3 (record { memory = three_memory; woken = [] })
unfolding subscribers
counted = refl

-- Two receivers of a channel of capacity 1: 7 fills their buffers, and the send of 8 sleeps.
abbrev one_room : World slab
one_room = opened (some 1)

one_room-channel : channel {T = ℕ} {W = ℕ} 1 ≡ some one_room
unfolding channel
one_room-channel = refl

no_room-channel : channel {T = ℕ} {W = ℕ} {S = slab} 0 ≡ none
unfolding channel
no_room-channel = refl

abbrev blocked : (s : System slab) × Reach task exact same (opened_by one_room) s
unfolding admits step try_send send_start send_poll new
blocked = (
  _,
  goes (calls_send 8 201)
      (goes (calls_try_send 7) (goes subscribes (goes subscribes begins refl refl) refl refl) refl
        refl)
      refl refl,
)

blocked-asleep : (blocked.0).log.tx_asleep ≡ some 201
unfolding blocked admits step try_send send_start send_poll new
blocked-asleep = refl

-- The first receiver takes 7 out, which wakes the sender; the send of 8 is ready when the second did too.
drained :
    (u : System slab) × Reach task exact same (opened_by one_room) u
    × (u.log.tx_asleep ≡ none)
    × (u.log.sending ≡ none)
    × ((u.log.subs 0).received ≡ 7 ∷ 8 ∷ [])
unfolding blocked admits step try_send send_start send_poll recv_poll new
drained = (
  _,
  goes (polls_recv 0 101)
      (goes (polls_send 201)
        (goes (polls_recv 1 102) (goes (polls_recv 0 101) (blocked.1) refl refl) refl refl) refl
        refl)
      refl refl,
  refl,
  refl,
  refl,
)

blocked-IsSound : (inner : Shared slab) × IsSound exact task (some 1) inner (blocked.0)
blocked-IsSound =
    broadcast-IsSound exact task rows-IsLawful same same-task 1 one_room-channel (blocked.1)

blocked-admits : admits (blocked.0) (polls_recv 1 102) ≡ true
unfolding blocked admits step try_send send_start send_poll new
blocked-admits = refl

broadcast_call-Goes_example :
    (inner : Shared slab) × ((t : System slab) × (step task exact same
          (blocked.0)
          (polls_recv 1 102)
        ≡ some t)
      × IsSound exact task (some 1) inner t)
broadcast_call-Goes_example =
    broadcast_call-Goes exact task (some 1) rows-IsLawful same same-task (blocked-IsSound.0)
      (blocked.0) (polls_recv 1 102) blocked-admits (blocked-IsSound.1)

broadcast-IsSound_example : (inner : Shared slab) × IsSound exact task (some 1) inner (blocked.0)
broadcast-IsSound_example =
    broadcast-IsSound exact task rows-IsLawful same same-task 1 one_room-channel (blocked.1)

sleeping_send-Gets_example :
    (k : ℕ) × (((blocked.0).log.subs k).there ≡ true)
    × (((blocked.0).log.subs k).asleep ≡ none)
    × Gets rows-IsLawful same k (blocked.0).memory
sleeping_send-Gets_example =
    sleeping_send-Gets rows-IsLawful same exact task same-task 1 one_room-channel (blocked.1)
      blocked-asleep

-- A channel without bound, its receiver gone again, and then its sender.
abbrev closed : (s : System slab) × Reach task exact same (opened_by unbounded) s
unfolding admits step try_send new unbounded
closed = (
  _,
  goes drops_sender
      (goes (drops_receiver 0)
        (goes (calls_try_send 7) (goes subscribes begins refl refl) refl refl) refl refl)
      refl refl,
)

-- The memory is gone with the last of them.
closed-gone : (closed.0).memory ≡ none
unfolding closed admits step try_send new unbounded
closed-gone = refl

broadcast_unbounded-IsSound_example :
    (inner : Shared slab) × IsSound exact task none inner (closed.0)
broadcast_unbounded-IsSound_example =
    broadcast_unbounded-IsSound exact task rows-IsLawful same same-task (closed.1)
