-- ===== src/Broadcast/Receiver.antt =====
-- src/broadcast.rs: the state of a receiver, and what the loops over the receivers do with one.
--
-- `value.clone()` is the value itself: what the type of the messages does in its `clone` is not modelled.
use unsync.Prelude.{
  ℕ, ◌+◌, Bool, true, false, not, ◌&&◌, Option, none, some, List, ◌==◌, if◌then◌else◌,
}
use unsync.Utils.{Allocator, VecDeque, len, push_back, with_capacity, wake}

pub record ReceiverState (T W : Type 0) : Type 0 where
  pub id : ℕ
  pub waker : Option W
  pub buf : VecDeque T
  pub unbounded : Bool

abbrev pub default_capacity : ℕ
default_capacity = 16

module _ {T W : Type 0} where
  unfoldable pub at_capacity : ReceiverState T W → Bool
  unfolding len
  at_capacity r = not r.unbounded && (r.buf.capacity == len r.buf)

  module _ (al : Allocator) where
    -- What `new_receiver` puts into the slab.
    unfoldable pub receiver_of : Option ℕ → ℕ → ReceiverState T W
    unfolding with_capacity
    receiver_of (some capacity) id = record {
      id = id;
      waker = none;
      buf = with_capacity al capacity;
      unbounded = false;
    }
    receiver_of none id = record {
      id = id;
      waker = none;
      buf = with_capacity al default_capacity;
      unbounded = true;
    }

    -- The bodies of the loops of `try_send` and of `Send::poll`, with the number of receivers
    -- delivered to and the wakers woken so far.
    unfoldable pub try_deliver :
        T → ReceiverState T W → ℕ × List W → ReceiverState T W × (ℕ × List W)
    unfolding at_capacity push_back wake
    try_deliver value r (n, woken) =
        if at_capacity r
        then (r, (n, woken))
        else (record r { buf = push_back al r.buf value }, (n + 1, wake r.waker woken))

    unfoldable pub deliver :
        ℕ → T → ReceiverState T W → ℕ × List W → ReceiverState T W × (ℕ × List W)
    unfolding at_capacity push_back wake
    deliver id value r (n, woken) =
        if r.id == id
        then (r, (n + 1, woken))
        else if at_capacity r
        then (r, (n, woken))
        else (record r { id = id; buf = push_back al r.buf value }, (n + 1, wake r.waker woken))

  -- The body of the loop of `Drop` of the sender.
  unfoldable pub take_waker : ReceiverState T W → List W → ReceiverState T W × List W
  unfolding wake
  take_waker r woken = (record r { waker = none }, wake r.waker woken)
