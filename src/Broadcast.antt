-- ===== src/Broadcast.antt =====
-- src/broadcast.rs: the channel of one sender and any number of receivers, over the `BroadRc` that
-- they share, with the receivers in a slab (Broadcast/Slab.antt).
--
-- The future `send` holds its value and borrows the sender, the future `recv` borrows its receiver,
-- which is known by its index. A `Receiver` whose index the slab does not have is not there.
mod Receiver
pub mod Slab
pub mod Deliver
pub mod System
mod Tests
unfoldable pub use Receiver.*
use unsync.Prelude.{
  ℕ, ◌+◌, ◌%◌, Bool, true, false, not, ◌&&◌, Option, none, some, List, [], ◌∷◌, Result, ok, err,
  Poll, ready, pending, Run, returns, panic, abort, fault, Cmd, and_then, pure, ◌>>=◌, ◌>>◌, ◌==◌,
  if◌then◌else◌,
}
use unsync.Utils.{
  Allocator, VecDeque, len, push_back, pop_front, pop_items, with_capacity, wake, register,
  word_mod,
}
use unsync.BroadRc
use unsync.BroadRc.{Inner, strong_get, weak_get, set_value, downgrade, drop_strong, drop_weak}
use unsync.Broadcast.Slab.{SlabOf}

-- The new number in `bump_message_id`, from that of the last message.
unfoldable pub bump_message_id : ℕ → ℕ
bump_message_id id = let next = (id + 1) % word_mod in if next == 0 then 1 else next

module _ {T W : Type 0} where
  pub record Shared (S : SlabOf (ReceiverState T W)) : Type 0 where
    pub id : ℕ
    pub sender : Option W
    pub receivers : S.Slab
    pub capacity : Option ℕ

  -- The memory of the channel, and the wakers woken so far.
  pub record World (S : SlabOf (ReceiverState T W)) : Type 0 where
    pub memory : Option (Inner (Shared S))
    pub woken : List W

  module _ {S : SlabOf (ReceiverState T W)} where
    -- A step of the `BroadRc`.
    abbrev pub in_world :
        {A : Type 0} → World S → Run (Option (Inner (Shared S))) A → Run (World S) A
    in_world s (returns a m) = returns a (record s { memory = m })
    in_world s panic = panic
    in_world s abort = abort
    in_world s fault = fault

    abbrev pub shared : {A : Type 0} → Cmd (Option (Inner (Shared S))) A → Cmd (World S) A
    shared m s = in_world s (m s.memory)

    abbrev pub set_woken : List W → Cmd (World S) (Unit {0})
    set_woken woken s = returns tt (record s { woken = woken })

    abbrev pub get_woken : Cmd (World S) (List W)
    get_woken s = returns s.woken s

    -- `if let Some(waker) = .. { waker.wake_by_ref() }`
    unfoldable pub wake_slot : Option W → Cmd (World S) (Unit {0})
    unfolding wake
    wake_slot slot s = returns tt (record s { woken = wake slot s.woken })

    -- `bump_message_id`
    unfoldable pub bump : Cmd (World S) (Unit {0})
    unfolding strong_get set_value bump_message_id
    bump = do
      present ← shared strong_get
      shared (set_value (record (present.0) { id = bump_message_id present.0.id }))

    unfoldable pub subscribers : Cmd (World S) ℕ
    unfolding strong_get
    subscribers = do present ← shared strong_get; pure (S.len present.0.receivers)

    -- The end of a loop over the receivers: they and the wakers that it woke are there.
    unfoldable pub looped : Shared S → S.Slab × (ℕ × List W) → Cmd (World S) (ℕ × ℕ)
    unfolding set_value
    looped inner (receivers, (delivered, woken)) = do
      shared (set_value (record inner { receivers = receivers }))
      set_woken woken
      pure (delivered, S.len receivers)

    module _ (al : Allocator) where
      unfoldable pub new_receiver : Cmd (World S) ℕ
      unfolding strong_get set_value receiver_of
      new_receiver = do
        present ← shared strong_get
        let inserted = S.insert (receiver_of al present.0.capacity present.0.id) present.0.receivers
        shared (set_value (record (present.0) { receivers = inserted.1 }))
        pure inserted.0

      unfoldable pub subscribe : Cmd (World S) ℕ
      unfolding new_receiver downgrade
      subscribe = do index ← new_receiver; shared downgrade; pure index

      unfoldable pub try_send : T → Cmd (World S) (Result ℕ ℕ)
      unfolding bump strong_get try_deliver looped
      try_send value = do
        bump
        present ← shared strong_get
        woken ← get_woken
        if not present.1 then pure (ok 0) else (do
          counts ←
              looped present.0 (S.iter_mut (try_deliver al value) present.0.receivers (0, woken))
          pure (if counts.0 == counts.1 then ok counts.0 else err counts.0))

      -- `Send::poll`
      unfoldable pub send_poll : (W → W → Bool) → T → W → Cmd (World S) (Poll ℕ)
      unfolding strong_get register deliver looped
      send_poll will_wake value cx = do
        present ← shared strong_get
        woken ← get_woken
        if not present.1 then pure (ready 0) else (do
          counts ←
              looped (record (present.0) { sender = register will_wake present.0.sender cx })
                (S.iter_mut (deliver al present.0.id value) present.0.receivers (0, woken))
          pure (if counts.0 == counts.1 then ready counts.0 else pending))

      -- The first poll of the future `send`; the later ones are `send_poll`.
      unfoldable pub send_start : (W → W → Bool) → T → W → Cmd (World S) (Poll ℕ)
      unfolding bump send_poll
      send_start will_wake value cx = do bump; send_poll will_wake value cx

    -- The rest of `Recv::poll`, on what `pop_front` returns.
    unfoldable pub recv_popped :
        (W → W → Bool)
        → W
        → ℕ
        → Shared S
        → ReceiverState T W
        → Bool
        → Option T × VecDeque T
        → Cmd (World S) (Poll (Option T))
    unfolding set_value wake_slot register
    recv_popped will_wake cx index inner r sender_present (some value, buf) = do
      shared (
          set_value
            (record inner { receivers = S.put index (record r { buf = buf }) inner.receivers }))
      wake_slot inner.sender
      pure (ready (some value))
    recv_popped will_wake cx index inner r false (none, buf) = do
      shared (
          set_value (record inner {
            receivers = S.put index (record r { waker = none; buf = buf }) inner.receivers;
          }))
      pure (ready none)
    recv_popped will_wake cx index inner r true (none, buf) = do
      shared (
          set_value (record inner {
            receivers =
                S.put index (record r { waker = register will_wake r.waker cx; buf = buf })
                  inner.receivers;
          }))
      wake_slot inner.sender
      pure pending

    unfoldable pub recv_found :
        (W → W → Bool)
        → W
        → ℕ
        → Shared S
        → Bool
        → Option (ReceiverState T W)
        → Cmd (World S) (Poll (Option T))
    unfolding pop_front pop_items recv_popped
    recv_found will_wake cx index inner sender_present none = pure (ready none)
    recv_found will_wake cx index inner sender_present (some r) =
        recv_popped will_wake cx index inner r sender_present (pop_front r.buf)

    unfoldable pub recv_poll : (W → W → Bool) → ℕ → W → Cmd (World S) (Poll (Option T))
    unfolding weak_get recv_found
    recv_poll will_wake index cx = do
      present ← shared weak_get
      recv_found will_wake cx index present.0 present.1 (S.get index present.0.receivers)

    -- `Drop` of `Sender` and of `Receiver`: their own, then that of the reference they hold.
    unfoldable pub drop_sender : Cmd (World S) (Unit {0})
    unfolding strong_get set_value take_waker drop_strong
    drop_sender = do
      present ← shared strong_get
      woken ← get_woken
      let looped = S.iter_mut take_waker present.0.receivers woken
      shared (set_value (record (present.0) { receivers = looped.0 }))
      set_woken looped.1
      shared drop_strong

    unfoldable pub drop_receiver : ℕ → Cmd (World S) (Unit {0})
    unfolding weak_get set_value wake_slot drop_weak
    drop_receiver index = do
      present ← shared weak_get
      shared (
          set_value (record (present.0) {
            sender = none;
            receivers = S.try_remove index present.0.receivers;
          }))
      wake_slot present.0.sender
      shared drop_weak

    abbrev opened : Option ℕ → World S
    opened capacity = record {
      memory =
          BroadRc.new (record { id = 0; sender = none; receivers = S.new; capacity = capacity });
      woken = [];
    }

    -- `none` is the panic on a capacity of 0.
    unfoldable pub channel : ℕ → Option (World S)
    unfolding BroadRc.new
    channel capacity = if capacity == 0 then none else some (opened (some capacity))

    unfoldable pub unbounded : World S
    unfolding BroadRc.new
    unbounded = opened none
