-- ===== src/Broadcast/System.antt =====
-- A broadcast channel with its sender and all its receivers, and what they have done with it. A step
-- is one call by the owner of an end, a run is any sequence of steps that Rust's ownership admits.
pub mod Sound
mod Wakes
pub mod Loops
pub mod Sends
pub mod Sending
pub mod Starts
pub mod Subscribes
pub mod Puts
pub mod Receives
pub mod Drops
pub mod Runs
pub mod Promises
pub mod Returns
use unsync.Prelude.{
  ℕ, ◌+◌, ◌-◌, ◌≡◌, Bool, true, false, not, ◌&&◌, Option, none, some, List, [], ◌∷◌, ◌++◌, Result,
  ok, err, Poll, ready, pending, Run, returns, panic, abort, fault, is_some, ltb, ◌==◌,
  if◌then◌else◌,
}
use unsync.Utils.{Allocator, usize_max}
use unsync.Utils.Sleepers.{sleeping}
use unsync.BroadRc.{Inner}
use unsync.Broadcast.Slab.{SlabOf}
use unsync.Broadcast.{
  ReceiverState, Shared, World, at_capacity, subscribe, try_send, send_start, send_poll, recv_poll,
  drop_sender, drop_receiver,
}

-- Of the receiver at an index: whether it is there, the task that sleeps in its `recv`, what it is
-- due by the sends that have ended, and what came out of it.
pub record Subscription (T : Type 0) : Type 0 where
  pub there : Bool
  pub asleep : Option ℕ
  pub due : List T
  pub received : List T

-- `sending` is the value of a `send` that is under way, `tx_asleep` the task that sleeps in it.
-- `bumps` counts the messages, `receivers` the receivers that are there.
pub record Log (T : Type 0) : Type 0 where
  pub sending : Option T
  pub tx_asleep : Option ℕ
  pub bumps : ℕ
  pub receivers : ℕ
  pub subs : ℕ → Subscription T

pub data Call (T W : Type 0) : Type 0 where
  subscribes : Call T W
  calls_try_send : T → Call T W
  calls_send : T → W → Call T W
  polls_send : W → Call T W
  cancels_send : Call T W
  polls_recv : ℕ → W → Call T W
  cancels_recv : ℕ → Call T W
  drops_sender : Call T W
  drops_receiver : ℕ → Call T W

module _ {T : Type 0} where
  abbrev pub alter :
      ℕ → (Subscription T → Subscription T) → (ℕ → Subscription T) → ℕ → Subscription T
  alter k f subs j = if k == j then f (subs j) else subs j

  -- Everybody for whom the test holds is due the value.
  abbrev pub grant : (ℕ → Bool) → Option T → (ℕ → Subscription T) → ℕ → Subscription T
  grant test none subs j = subs j
  grant test (some value) subs j =
      if test j then record (subs j) { due = (subs j).due ++ (value ∷ []) } else subs j

  abbrev pub note_subscribed : ℕ → Log T → Log T
  note_subscribed k l = record l {
    receivers = l.receivers + 1;
    subs = alter k (λ s. record { there = true; asleep = none; due = []; received = [] }) l.subs;
  }

  abbrev pub note_tried : (ℕ → Bool) → T → Result ℕ ℕ → Log T → Log T
  note_tried has_room value r l = record l {
    bumps = l.bumps + 1;
    subs = grant has_room (some value) l.subs;
  }

  abbrev pub note_started : T → Log T → Log T
  note_started value l = record l { bumps = l.bumps + 1; sending = some value }

  abbrev pub note_sent : ℕ → Poll ℕ → Log T → Log T
  note_sent t pending l = record l { tx_asleep = some t }
  note_sent t (ready n) l = record l {
    sending = none;
    tx_asleep = none;
    subs = grant (λ j. true) l.sending l.subs;
  }

  abbrev pub note_received : ℕ → ℕ → Poll (Option T) → Log T → Log T
  note_received k t pending l = record l {
    subs = alter k (λ s. record s { asleep = some t }) l.subs;
  }
  note_received k t (ready none) l = record l {
    subs = alter k (λ s. record s { asleep = none }) l.subs;
  }
  note_received k t (ready (some value)) l = record l {
    subs = alter k (λ s. record s { asleep = none; received = s.received ++ (value ∷ []) }) l.subs;
  }

module _ {T W : Type 0} (task : W → ℕ) where
  -- Those that sleep on after all of the wakers were woken.
  abbrev pub roused : List W → Log T → Log T
  roused ws l = record l {
    tx_asleep = sleeping task l.tx_asleep ws;
    subs = λ j. record (l.subs j) { asleep = sleeping task (l.subs j).asleep ws };
  }

pub record System {T W : Type 0} (S : SlabOf (ReceiverState T W)) : Type 0 where
  pub memory : Option (Inner (Shared S))
  pub sender : Bool
  pub log : Log T

module _ {T W : Type 0} {S : SlabOf (ReceiverState T W)} where
  -- A new channel, its sender handed out.
  abbrev pub opened_by : World S → System S
  opened_by w = record {
    memory = w.memory;
    sender = true;
    log = record {
      sending = none;
      tx_asleep = none;
      bumps = 0;
      receivers = 0;
      subs = λ j. record { there = false; asleep = none; due = []; received = [] };
    };
  }

  -- What ownership and borrows admit: a future `send` borrows the sender while it is there. The counts
  -- of receivers and of messages stay below `usize::MAX`.
  unfoldable pub admits : System S → Call T W → Bool
  admits s subscribes = s.sender && not (is_some s.log.sending) && ltb s.log.receivers usize_max
  admits s (calls_try_send value) =
      s.sender && not (is_some s.log.sending) && ltb s.log.bumps usize_max
  admits s (calls_send value cx) =
      s.sender && not (is_some s.log.sending) && ltb s.log.bumps usize_max
  admits s (polls_send cx) = is_some s.log.sending
  admits s cancels_send = is_some s.log.sending
  admits s (polls_recv k cx) = (s.log.subs k).there
  admits s (cancels_recv k) = (s.log.subs k).there
  admits s drops_sender = s.sender && not (is_some s.log.sending)
  admits s (drops_receiver k) = (s.log.subs k).there

  -- A test of the receiver at an index, in the memory as it is.
  abbrev pub test_at : (Shared S → ReceiverState T W → Bool) → Option (Inner (Shared S)) → ℕ → Bool
  test_at test none j = false
  test_at test (some inner) j = elim (S.get j inner.value.receivers) [
    | none ↦ false
    | some r ↦ test inner.value r
  ]

  -- It has room in its buffer; it holds the last message.
  abbrev pub has_room : Option (Inner (Shared S)) → ℕ → Bool
  has_room = test_at (λ inner r. not (at_capacity r))

  abbrev pub is_reached : Option (Inner (Shared S)) → ℕ → Bool
  is_reached = test_at (λ inner r. r.id == inner.id)

  module _ (task : W → ℕ) where
    -- `none` if the code panicked, aborted or touched memory that is gone.
    abbrev pub after :
        {A : Type 0} → System S → (A → Log T → Log T) → Run (World S) A → Option (System S)
    after s note (returns a w) =
        some (record s { memory = w.memory; log = note a (roused task w.woken s.log) })
    after s note panic = none
    after s note abort = none
    after s note fault = none

    abbrev pub without_sender : Option (System S) → Option (System S)
    without_sender none = none
    without_sender (some s) = some (record s { sender = false })

    module _ (al : Allocator) (will_wake : W → W → Bool) where
      unfoldable pub step : System S → Call T W → Option (System S)
      unfolding subscribe try_send send_start send_poll recv_poll drop_sender drop_receiver
      step s subscribes =
          after s note_subscribed (subscribe al (record { memory = s.memory; woken = [] }))
      step s (calls_try_send value) =
          after s (note_tried (has_room s.memory) value)
            (try_send al value (record { memory = s.memory; woken = [] }))
      step s (calls_send value cx) =
          after s (λ r l. note_sent (task cx) r (note_started value l))
            (send_start al will_wake value cx (record { memory = s.memory; woken = [] }))
      step s (polls_send cx) = elim s.log.sending [
        | none ↦ none
        | some value ↦
            after s (note_sent (task cx))
              (send_poll al will_wake value cx (record { memory = s.memory; woken = [] }))
      ]
      step s cancels_send = some (record s {
        log = record s.log {
          sending = none;
          tx_asleep = none;
          subs = grant (is_reached s.memory) s.log.sending s.log.subs;
        };
      })
      step s (polls_recv k cx) =
          after s (note_received k (task cx))
            (recv_poll will_wake k cx (record { memory = s.memory; woken = [] }))
      step s (cancels_recv k) = some (record s {
        log = record s.log { subs = alter k (λ s. record s { asleep = none }) s.log.subs };
      })
      step s drops_sender =
          without_sender
            (after s (λ u l. l) (drop_sender (record { memory = s.memory; woken = [] })))
      step s (drops_receiver k) =
          after s
            (λ u l. record l {
              receivers = l.receivers - 1;
              subs = alter k (λ s. record s { there = false; asleep = none }) l.subs;
            })
            (drop_receiver k (record { memory = s.memory; woken = [] }))

      -- What can come about from `s`.
      pub data Reach (s : System S) : System S → Type 0 where
        begins : Reach s s
        goes :
            {t u : System S} (c : Call T W)
            → Reach s t
            → admits t c ≡ true
            → step t c ≡ some u
            → Reach s u
