-- ===== src/Spsc.antt =====
-- src/spsc.rs: the channel of one sender and one receiver, over the `BiRc` that they share.
--
-- The future `send` is a state machine that holds the value until it is queued or given back, the
-- future `recv` one that holds nothing. Both borrow their end of the channel.
pub mod Fill
pub mod System
mod Tests
use unsync.Prelude.{
  ℕ, zero, suc, Bool, true, false, not, ◌&&◌, ◌||◌, Option, none, some, [], Result, ok, err, Poll,
  ready, pending, Run, returns, panic, Cmd, and_then, pure, ◌>>=◌, ◌>>◌, ◌==◌, if◌then◌else◌,
}
use unsync.Utils.{
  Allocator, VecDeque, len, with_capacity, push_back, pop_front, pop_items, register,
}
use unsync.BiRc.{World, new, load, get_mut_unchecked, set_value, drop, wake_slot}

pub record Shared (T W : Type 0) : Type 0 where
  pub tx : Option W
  pub rx : Option W
  pub buf : VecDeque T
  pub unbounded : Bool

module _ {T W : Type 0} where
  unfoldable pub at_capacity : Shared T W → Bool
  unfolding len
  at_capacity inner = not inner.unbounded && (inner.buf.capacity == len inner.buf)

  module _ (al : Allocator) where
    -- `inner.buf.push_back(value)`, and the receiver is woken.
    unfoldable pub push : T → Shared T W → Cmd (World (Shared T W) W) (Unit {0})
    unfolding push_back set_value wake_slot
    push value inner = do
      set_value (record inner { buf = push_back al inner.buf value })
      wake_slot inner.rx

    unfoldable pub try_send : T → Cmd (World (Shared T W) W) (Result (Unit {0}) T)
    unfolding get_mut_unchecked at_capacity push
    try_send value = do
      present ← get_mut_unchecked
      if not present.1 || at_capacity present.0
          then pure (err value)
          else (do push value present.0; pure (ok tt))

    -- `this.value.take().expect("future already completed")`
    unfoldable pub take_value : Option T → Cmd (World (Shared T W) W) T
    take_value none s = panic
    take_value (some value) s = returns value s

    -- The rest of `Send::poll`, with what `get_mut_unchecked` returned.
    unfoldable pub send_with :
        (W → W → Bool)
        → Option T
        → W
        → Shared T W
        → Bool
        → Cmd (World (Shared T W) W) (Poll (Result (Unit {0}) T) × Option T)
    unfolding set_value take_value at_capacity register push
    send_with will_wake held cx inner false = do
      set_value (record inner { tx = none })
      value ← take_value held
      pure (ready (err value), none)
    send_with will_wake held cx inner true =
        if at_capacity inner
        then (do
          set_value (record inner { tx = register will_wake inner.tx cx })
          pure (pending, held))
        else (do value ← take_value held; push value inner; pure (ready (ok tt), none))

    -- `Send::poll`: what it returns, and the value that the future holds after it.
    unfoldable pub send_poll :
        (W → W → Bool)
        → Option T
        → W
        → Cmd (World (Shared T W) W) (Poll (Result (Unit {0}) T) × Option T)
    unfolding get_mut_unchecked send_with
    send_poll will_wake held cx = do
      present ← get_mut_unchecked
      send_with will_wake held cx present.0 present.1

  -- The rest of `Recv::poll`, on what `pop_front` returns.
  unfoldable pub recv_popped :
      (W → W → Bool)
      → W
      → Shared T W
      → Bool
      → Option T × VecDeque T
      → Cmd (World (Shared T W) W) (Poll (Option T))
  unfolding set_value wake_slot register
  recv_popped will_wake cx inner both_present (some value, buf) = do
    set_value (record inner { buf = buf })
    wake_slot inner.tx
    pure (ready (some value))
  recv_popped will_wake cx inner false (none, buf) = do
    set_value (record inner { buf = buf; rx = none })
    pure (ready none)
  recv_popped will_wake cx inner true (none, buf) = do
    set_value (record inner { buf = buf; rx = register will_wake inner.rx cx })
    wake_slot inner.tx
    pure pending

  unfoldable pub recv_poll : (W → W → Bool) → W → Cmd (World (Shared T W) W) (Poll (Option T))
  unfolding get_mut_unchecked pop_front pop_items recv_popped
  recv_poll will_wake cx = do
    present ← get_mut_unchecked
    recv_popped will_wake cx present.0 present.1 (pop_front present.0.buf)

  -- `Drop` of `Sender` and of `Receiver`: their own, then that of the reference they hold.
  unfoldable pub drop_sender : Cmd (World (Shared T W) W) (Unit {0})
  unfolding get_mut_unchecked set_value wake_slot drop
  drop_sender = do
    present ← get_mut_unchecked
    set_value (record (present.0) { rx = none })
    wake_slot present.0.rx
    drop

  unfoldable pub drop_receiver : Cmd (World (Shared T W) W) (Unit {0})
  unfolding get_mut_unchecked set_value wake_slot drop
  drop_receiver = do
    present ← get_mut_unchecked
    set_value (record (present.0) { tx = none })
    wake_slot present.0.tx
    drop

  -- `none` is the panic on a capacity of 0.
  unfoldable pub channel : Allocator → ℕ → Option (World (Shared T W) W)
  unfolding new with_capacity
  channel al capacity =
      if capacity == 0
      then none
      else some (
          new (record { tx = none; rx = none; buf = with_capacity al capacity; unbounded = false }))

  -- `VecDeque::new` allocates nothing.
  unfoldable pub unbounded : World (Shared T W) W
  unfolding new
  unbounded =
      new (record {
        tx = none;
        rx = none;
        buf = record { items = []; capacity = 0 };
        unbounded = true;
      })
