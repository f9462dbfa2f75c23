-- ===== src/WaitList.antt =====
-- src/wait_list.rs: the operations, over the memory of WaitList/Memory.antt.
--
-- A value of type `Borrowed` is the flag `borrowed`: `borrow` sets it, `drop_borrowed` is the
-- `Drop` of the guard. The future `wait` is a state machine with three entries: the first poll,
-- a later poll, and the drop of the future while it waits.
mod Memory
mod Fields
pub mod Links
mod Relink
pub mod Dequeue
pub mod Enqueue
pub mod Spec
pub mod Refine
pub mod Borrow
pub mod Calls
unfoldable pub use Memory.*
unfoldable pub use Fields.*
use unsync.Prelude.{
  ℕ, Bool, true, false, not, Option, none, some, [], Result, ok, err, Poll, ready, pending, is_some,
  if◌then◌else◌,
}
use unsync.Utils.{wake}

module _ {I O W : Type 0} where
  unfoldable pub new : World I O W
  new = record {
    borrowed = false;
    inner = record { head = none; tail = none };
    cells = λ p. none;
    woken = [];
  }

  unfoldable pub enqueue : Ptr → Cmd (World I O W) (Unit {0})
  unfolding load store get_tail link_tail set_tail get_head get_or_insert_head
  enqueue p = do
    w ← load p
    prev ← get_tail
    store p (record w { prev = prev })
    tail ← get_tail
    link_tail tail p
    set_tail (some p)
    head ← get_head
    get_or_insert_head head p

  unfoldable pub dequeue : Ptr → Cmd (World I O W) (Unit {0})
  unfolding load read_next write_next read_prev write_prev
  dequeue p = do
    w ← load p
    prev_next ← read_next w.prev
    debug_assert (ptr_eq prev_next (some p))
    write_next w.prev w.next
    next_prev ← read_prev w.next
    debug_assert (ptr_eq next_prev (some p))
    write_prev w.next w.prev

  -- `None` is `false`: the list was borrowed already.
  unfoldable pub try_borrow : Cmd (World I O W) Bool
  try_borrow s = returns (not s.borrowed) (record s { borrowed = true })

  unfoldable pub borrow : Cmd (World I O W) (Unit {0})
  unfolding try_borrow
  borrow = do borrowed ← try_borrow; if borrowed then pure tt else λ s. panic

  unfoldable pub drop_borrowed : Cmd (World I O W) (Unit {0})
  drop_borrowed s =
      and_then (debug_assert s.borrowed s) λ _ s'. returns tt (record s' { borrowed = false })

  unfoldable pub is_empty : Cmd (World I O W) Bool
  is_empty s = returns (not (is_some s.inner.head)) s

  -- The member `input` of a waiter's state, and `output`; the other member is a fault.
  unfoldable pub get_input : State I O → Cmd (World I O W) I
  get_input (input i) s = returns i s
  get_input (output o) s = fault

  unfoldable pub get_output : State I O → Cmd (World I O W) O
  get_output (output o) s = returns o s
  get_output (input i) s = fault

  unfoldable pub head_input_at : Option Ptr → Cmd (World I O W) (Option I)
  unfolding load get_input
  head_input_at none = pure none
  head_input_at (some h) = do w ← load h; i ← get_input w.state; pure (some i)

  unfoldable pub head_input : Cmd (World I O W) (Option I)
  unfolding head_input_at
  head_input s = head_input_at s.inner.head s

  -- `f` is what the caller does with the reference that `head_input_mut` returns.
  unfoldable pub head_input_mut_at : (I → I) → Option Ptr → Cmd (World I O W) (Option I)
  unfolding load get_input store
  head_input_mut_at f none = pure none
  head_input_mut_at f (some h) = do
    w ← load h
    i ← get_input w.state
    store h (record w { state = input (f i) })
    pure (some i)

  unfoldable pub head_input_mut : (I → I) → Cmd (World I O W) (Option I)
  unfolding head_input_mut_at
  head_input_mut f s = head_input_mut_at f s.inner.head s

  -- `head.waker.take()`; `unreachable!()` panics.
  unfoldable pub expect_waker : Option W → Cmd (World I O W) W
  expect_waker none s = panic
  expect_waker (some w) s = returns w s

  unfoldable pub wake_up : W → Cmd (World I O W) (Unit {0})
  unfolding wake
  wake_up w s = returns tt (record s { woken = wake (some w) s.woken })

  unfoldable pub wake_at : Option Ptr → O → Cmd (World I O W) (Result I O)
  unfolding load store expect_waker get_input dequeue wake_up
  wake_at none o = pure (err o)
  wake_at (some h) o = do
    w ← load h
    waker ← expect_waker w.waker
    i ← get_input w.state
    store h (record w { state = output o; waker = none })
    dequeue h
    wake_up waker
    pure (ok i)

  unfoldable pub wake_one : O → Cmd (World I O W) (Result I O)
  unfolding wake_at
  wake_one o s = wake_at s.inner.head o s

  -- `WaitInner::new`
  unfoldable pub wait_inner_new : Ptr → Cmd (World I O W) (Unit {0})
  unfolding borrow enqueue drop_borrowed
  wait_inner_new p = do borrow; enqueue p; drop_borrowed

  unfoldable pub update_waker :
      (W → W → Bool) → Ptr → Waiter I O W → W → Option W → Cmd (World I O W) (Poll (Unit {0}))
  unfolding store
  update_waker will_wake p w cx none = pure (ready tt)
  update_waker will_wake p w cx (some old) =
      if will_wake old cx
      then pure pending
      else (do store p (record w { waker = some cx }); pure pending)

  -- `WaitInner::poll`
  unfoldable pub wait_inner_poll : (W → W → Bool) → Ptr → W → Cmd (World I O W) (Poll (Unit {0}))
  unfolding borrow load update_waker drop_borrowed
  wait_inner_poll will_wake p cx = do
    borrow
    w ← load p
    r ← update_waker will_wake p w cx w.waker
    drop_borrowed
    pure r

  -- `WaitInner::drop`
  unfoldable pub wait_inner_drop : Ptr → Cmd (World I O W) (Unit {0})
  unfolding load dequeue drop_borrowed
  wait_inner_drop p = do
    borrowed ← try_borrow
    if borrowed then pure tt else λ s. abort
    w ← load p
    if is_some w.waker then dequeue p else pure tt
    drop_borrowed

  unfoldable pub free : Ptr → Cmd (World I O W) (Unit {0})
  free p s = returns tt (record s { cells = write s.cells p none })

  -- The local variable `waiter` of `wait`, and the poll of `WaitInner`, at the first poll.
  unfoldable pub wait_start : (W → W → Bool) → Ptr → I → W → Cmd (World I O W) (Poll (Unit {0}))
  unfolding store wait_inner_new wait_inner_poll
  wait_start will_wake p i cx = do
    store p (record { next = none; prev = none; state = input i; waker = some cx })
    wait_inner_new p
    wait_inner_poll will_wake p cx

  -- `ManuallyDrop::take(&mut waiter.state.output)`, after which the variable is gone.
  unfoldable pub take_output : Ptr → Cmd (World I O W) O
  unfolding load get_output free
  take_output p = do
    w ← load p
    debug_assert (not (is_some w.waker))
    o ← get_output w.state
    free p
    pure o

  unfoldable pub wait_resume : Ptr → Poll (Unit {0}) → Cmd (World I O W) (Poll O)
  unfolding wait_inner_drop take_output
  wait_resume p pending s = returns pending s
  wait_resume p (ready u) s =
      and_then (wait_inner_drop p s) λ _ s'. and_then (take_output p s') λ o t. returns (ready o) t

  -- A later poll of the future `wait`.
  unfoldable pub wait_poll : (W → W → Bool) → Ptr → W → Cmd (World I O W) (Poll O)
  unfolding wait_inner_poll wait_resume
  wait_poll will_wake p cx = do r ← wait_inner_poll will_wake p cx; wait_resume p r

  -- `Drop` of `Waiter`: the member of `state` that `waker` says is there. It is handed back, so
  -- that its own `Drop` can run.
  unfoldable pub drop_state : Option W → State I O → Cmd (World I O W) (State I O)
  unfolding get_input get_output
  drop_state (some w) st s = and_then (get_input st s) λ i t. returns (input i) t
  drop_state none st s = and_then (get_output st s) λ o t. returns (output o) t

  unfoldable pub drop_waiter : Ptr → Cmd (World I O W) (State I O)
  unfolding load drop_state free
  drop_waiter p = do w ← load p; free p; drop_state w.waker w.state

  -- The future `wait` is dropped while it waits: first `WaitInner`, then the waiter.
  unfoldable pub wait_drop : Ptr → Cmd (World I O W) (State I O)
  unfolding wait_inner_drop drop_waiter
  wait_drop p = do wait_inner_drop p; drop_waiter p
