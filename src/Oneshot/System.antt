-- ===== src/Oneshot/System.antt =====
-- A oneshot channel with its two ends, and what they have done with it. A step is one call by the
-- owner of an end, a run is any sequence of steps that Rust's ownership admits.
pub mod Sound
pub mod Runs
use unsync.Prelude.{
  ℕ, ◌≡◌, Bool, true, false, Option, none, some, List, [], ◌∷◌, ◌++◌, Result, ok, err, Poll, ready,
  pending, Run, returns, panic, abort, fault,
}
use unsync.Utils.Sleepers.{sleeping}
use unsync.BiRc.{Inner, World}
use unsync.Oneshot.{Shared, send, poll, drop_end, channel}

-- `asleep` is the task that sleeps in the receiver, `accepted` is what was sent, and `received`
-- what came out.
pub record Log (T : Type 0) : Type 0 where
  pub asleep : Option ℕ
  pub accepted : List T
  pub received : List T

pub record System (T W : Type 0) : Type 0 where
  pub memory : Option (Inner (Shared T W))
  pub sender : Bool
  pub receiver : Bool
  pub log : Log T

pub data Call (T W : Type 0) : Type 0 where
  calls_send : T → Call T W
  polls : W → Call T W
  drops_sender : Call T W
  drops_receiver : Call T W

module _ {T : Type 0} where
  -- The notes in the log on what a call returned.
  abbrev pub note_sent : T → Result (Unit {0}) T → Log T → Log T
  note_sent value (ok u) l = record l { accepted = l.accepted ++ (value ∷ []) }
  note_sent value (err e) l = l

  abbrev pub note_polled : ℕ → Poll (Option T) → Log T → Log T
  note_polled t pending l = record l { asleep = some t }
  note_polled t (ready none) l = record l { asleep = none }
  note_polled t (ready (some value)) l = record l {
    asleep = none;
    received = l.received ++ (value ∷ []);
  }

module _ {T W : Type 0} where
  -- An end can be used as long as it is there.
  unfoldable pub admits : System T W → Call T W → Bool
  admits s (calls_send value) = s.sender
  admits s (polls cx) = s.receiver
  admits s drops_sender = s.sender
  admits s drops_receiver = s.receiver

  unfoldable pub opened : System T W
  unfolding channel
  opened = record {
    memory = (channel {W = W}).memory;
    sender = true;
    receiver = true;
    log = record { asleep = none; accepted = []; received = [] };
  }

  abbrev pub without_sender : Option (System T W) → Option (System T W)
  without_sender none = none
  without_sender (some s) = some (record s { sender = false })

  abbrev pub without_receiver : Option (System T W) → Option (System T W)
  without_receiver none = none
  without_receiver (some s) =
      some (record s { receiver = false; log = record s.log { asleep = none } })

  module _ (task : W → ℕ) where
    -- `none` if the code panicked, aborted or touched memory that is gone.
    abbrev pub after :
        {A : Type 0}
        → System T W
        → (A → Log T → Log T)
        → Run (World (Shared T W) W) A
        → Option (System T W)
    after s note (returns a w) = some (record s {
      memory = w.memory;
      log = note a (record s.log { asleep = sleeping task s.log.asleep w.woken });
    })
    after s note panic = none
    after s note abort = none
    after s note fault = none

    module _ (will_wake : W → W → Bool) where
      unfoldable pub step : System T W → Call T W → Option (System T W)
      unfolding send poll drop_end
      step s (calls_send value) =
          without_sender
            (after s (note_sent value) (send value (record { memory = s.memory; woken = [] })))
      step s (polls cx) =
          after s (note_polled (task cx))
            (poll will_wake cx (record { memory = s.memory; woken = [] }))
      step s drops_sender =
          without_sender (after s (λ u l. l) (drop_end (record { memory = s.memory; woken = [] })))
      step s drops_receiver =
          without_receiver
            (after s (λ u l. l) (drop_end (record { memory = s.memory; woken = [] })))

      -- What can come about from a new channel.
      pub data Reach : System T W → Type 0 where
        begins : Reach opened
        goes :
            {s t : System T W} (c : Call T W)
            → Reach s
            → admits s c ≡ true
            → step s c ≡ some t
            → Reach t
