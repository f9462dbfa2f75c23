-- ===== src/Oneshot.antt =====
-- src/oneshot.rs: the channel of one message, over the `BiRc` that its two ends share.
--
-- `send` takes the sender by value, which is dropped when it returns. The receiver is the future.
pub mod System
mod Tests
use unsync.Prelude.{
  Bool, true, false, not, Option, none, some, Result, ok, err, Poll, ready, pending, Run, returns,
  Cmd, and_then, pure, ◌>>=◌, ◌>>◌, if◌then◌else◌,
}
use unsync.Utils.{register}
use unsync.BiRc.{World, new, get_mut_unchecked, set_value, drop, wake_slot}

pub record Shared (T W : Type 0) : Type 0 where
  pub waker : Option W
  pub buf : Option T

module _ {T W : Type 0} where
  -- `Drop` of `Sender` and of `Receiver`, which are alike: their own, then that of the reference.
  unfoldable pub drop_end : Cmd (World (Shared T W) W) (Unit {0})
  unfolding get_mut_unchecked set_value wake_slot drop
  drop_end = do
    present ← get_mut_unchecked
    set_value (record (present.0) { waker = none })
    wake_slot present.0.waker
    drop

  -- The body of `send`
  unfoldable pub send_value : T → Cmd (World (Shared T W) W) (Result (Unit {0}) T)
  unfolding get_mut_unchecked set_value wake_slot
  send_value value = do
    present ← get_mut_unchecked
    if not present.1 then pure (err value) else (do
      set_value (record { waker = none; buf = some value })
      wake_slot present.0.waker
      pure (ok tt))

  unfoldable pub send : T → Cmd (World (Shared T W) W) (Result (Unit {0}) T)
  unfolding send_value drop_end
  send value = do r ← send_value value; drop_end; pure r

  -- `Receiver::poll`, by what stands in the buffer and whether the sender is there
  unfoldable pub poll_with :
      (W → W → Bool)
      → W
      → Shared T W
      → Option T
      → Bool
      → Cmd (World (Shared T W) W) (Poll (Option T))
  unfolding set_value register
  poll_with will_wake cx inner (some value) both_present = do
    set_value (record inner { buf = none })
    pure (ready (some value))
  poll_with will_wake cx inner none false = do
    set_value (record { waker = none; buf = none })
    pure (ready none)
  poll_with will_wake cx inner none true = do
    set_value (record { waker = register will_wake inner.waker cx; buf = none })
    pure pending

  unfoldable pub poll : (W → W → Bool) → W → Cmd (World (Shared T W) W) (Poll (Option T))
  unfolding get_mut_unchecked poll_with
  poll will_wake cx = do
    present ← get_mut_unchecked
    poll_with will_wake cx present.0 present.0.buf present.1

  unfoldable pub channel : World (Shared T W) W
  unfolding new
  channel = new (record { waker = none; buf = none })
