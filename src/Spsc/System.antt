-- ===== src/Spsc/System.antt =====
-- A channel with its two ends, and what they have done with it. A step is one call by the owner of
-- an end, a run is any sequence of steps that Rust's ownership admits.
pub mod Sound
pub mod Sends
pub mod Receives
pub mod Runs
use unsync.Prelude.{
  ℕ, ◌≡◌, Bool, true, false, not, ◌&&◌, Option, none, some, List, [], ◌∷◌, ◌++◌, Result, ok, err,
  Poll, ready, pending, Run, returns, panic, abort, fault, is_some,
}
use unsync.Utils.{Allocator}
use unsync.Utils.Sleepers.{sleeping}
use unsync.BiRc.{Inner, World}
use unsync.Spsc.{Shared, try_send, send_poll, recv_poll, drop_sender, drop_receiver}

-- `sending` is the value in a future `send` that is under way; `tx_asleep` and `rx_asleep` are the
-- tasks that sleep in `send` and `recv`; `accepted` is what was sent, and `received` what came out.
pub record Log (T : Type 0) : Type 0 where
  pub sending : Option T
  pub tx_asleep : Option ℕ
  pub rx_asleep : Option ℕ
  pub accepted : List T
  pub received : List T

pub record System (T W : Type 0) : Type 0 where
  pub memory : Option (Inner (Shared T W))
  pub sender : Bool
  pub receiver : Bool
  pub log : Log T

pub data Call (T W : Type 0) : Type 0 where
  calls_try_send : T → Call T W
  calls_send : T → Call T W
  polls_send : W → Call T W
  cancels_send : Call T W
  polls_recv : W → Call T W
  cancels_recv : Call T W
  drops_sender : Call T W
  drops_receiver : Call T W

module _ {T : Type 0} where
  -- The notes in the log on what a call returned.
  abbrev pub note_sent : Option T → Result (Unit {0}) T → Log T → Log T
  note_sent (some value) (ok u) l = record l { accepted = l.accepted ++ (value ∷ []) }
  note_sent none (ok u) l = l
  note_sent value (err e) l = l

  abbrev pub note_send : Option T → ℕ → Poll (Result (Unit {0}) T) × Option T → Log T → Log T
  note_send value t (pending, held) l = record l { sending = held; tx_asleep = some t }
  note_send value t (ready r, held) l =
      note_sent value r (record l { sending = none; tx_asleep = none })

  abbrev pub note_recv : ℕ → Poll (Option T) → Log T → Log T
  note_recv t pending l = record l { rx_asleep = some t }
  note_recv t (ready none) l = record l { rx_asleep = none }
  note_recv t (ready (some value)) l = record l {
    rx_asleep = none;
    received = l.received ++ (value ∷ []);
  }

module _ {T W : Type 0} where
  -- What ownership and borrows admit: a future `send` borrows the sender while it is there.
  unfoldable pub admits : System T W → Call T W → Bool
  admits s (calls_try_send value) = s.sender && not (is_some s.log.sending)
  admits s (calls_send value) = s.sender && not (is_some s.log.sending)
  admits s (polls_send cx) = is_some s.log.sending
  admits s cancels_send = is_some s.log.sending
  admits s (polls_recv cx) = s.receiver
  admits s cancels_recv = s.receiver
  admits s drops_sender = s.sender && not (is_some s.log.sending)
  admits s drops_receiver = s.receiver

  -- A new channel, its two ends handed out.
  abbrev pub opened : World (Shared T W) W → System T W
  opened w = record {
    memory = w.memory;
    sender = true;
    receiver = true;
    log = record {
      sending = none;
      tx_asleep = none;
      rx_asleep = none;
      accepted = [];
      received = [];
    };
  }

  module _ (task : W → ℕ) where
    -- `none` if the code panicked, aborted or touched memory that is gone.
    abbrev pub after :
        {A : Type 0}
        → System T W
        → (A → Log T → Log T)
        → Run (World (Shared T W) W) A
        → Option (System T W)
    after s note (returns a w) = some (record s {
      memory = w.memory;
      log = note a (record s.log {
        tx_asleep = sleeping task s.log.tx_asleep w.woken;
        rx_asleep = sleeping task s.log.rx_asleep w.woken;
      });
    })
    after s note panic = none
    after s note abort = none
    after s note fault = none

    abbrev pub without_sender : Option (System T W) → Option (System T W)
    without_sender none = none
    without_sender (some s) = some (record s { sender = false })

    abbrev pub without_receiver : Option (System T W) → Option (System T W)
    without_receiver none = none
    without_receiver (some s) =
        some (record s { receiver = false; log = record s.log { rx_asleep = none } })

    module _ (al : Allocator) (will_wake : W → W → Bool) where
      unfoldable pub step : System T W → Call T W → Option (System T W)
      unfolding try_send send_poll recv_poll drop_sender drop_receiver
      step s (calls_try_send value) =
          after s (note_sent (some value))
            (try_send al value (record { memory = s.memory; woken = [] }))
      step s (calls_send value) = some (record s { log = record s.log { sending = some value } })
      step s (polls_send cx) =
          after s (note_send s.log.sending (task cx))
            (send_poll al will_wake s.log.sending cx (record { memory = s.memory; woken = [] }))
      step s cancels_send =
          some (record s { log = record s.log { sending = none; tx_asleep = none } })
      step s (polls_recv cx) =
          after s (note_recv (task cx))
            (recv_poll will_wake cx (record { memory = s.memory; woken = [] }))
      step s cancels_recv = some (record s { log = record s.log { rx_asleep = none } })
      step s drops_sender =
          without_sender
            (after s (λ u l. l) (drop_sender (record { memory = s.memory; woken = [] })))
      step s drops_receiver =
          without_receiver
            (after s (λ u l. l) (drop_receiver (record { memory = s.memory; woken = [] })))

      -- What can come about from `s`.
      pub data Reach (s : System T W) : System T W → Type 0 where
        begins : Reach s s
        goes :
            {t u : System T W} (c : Call T W)
            → Reach s t
            → admits t c ≡ true
            → step t c ≡ some u
            → Reach s u
