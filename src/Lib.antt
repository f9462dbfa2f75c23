-- ===== src/Lib.antt =====
-- The crate unsync: asynchronous primitives for one thread, with no synchronisation.
--
-- At the bottom is the wait list (src/wait_list.rs), an intrusive doubly linked list whose nodes
-- are the waiters in the memory of the futures that wait. The semaphore (src/semaphore.rs) parks
-- the futures `acquire` and `acquire_unfair` on it, and hands wakes or granted permits over
-- through it. The once cell (src/once_cell.rs) parks the futures that find it being initialized,
-- and passes the baton, which is the job of initializing it, through the same list. The channels
-- do not use it: their ends share a `BiRc` (src/bi_rc.rs), and a sender or a receiver that has to
-- wait leaves a waker there.
--
-- Which file models what:
-- Prelude holds the shared names, lists, results and runs; a run returns, panics, aborts or
--   commits a fault, which is undefined behaviour. Prelude/Histories makes calls one after the other.
-- Utils is src/utils.rs, machine words of 64 bits, wakers in slots, `VecDeque`, and tasks that
--   sleep.
-- WaitList is src/wait_list.rs: `enqueue`, `dequeue`, `wake_one`, `borrow` and the future `wait`
--   under their own names, over a memory of addresses (WaitList/Memory,
--   WaitList/Fields). WaitList/Spec is a queue
--   with no pointers; WaitList/Refine relates the two, and WaitList/Calls lets any callers call in
--   any order.
-- Semaphore is src/semaphore.rs under the functions' own names, over the queue of WaitList/Spec:
--   `release_permits` with its loop on fuel, one more than there are waiters; the futures as
--   `acquire_poll` and `acquire_drop`. Semaphore/System is a semaphore with all that its callers
--   hold. Semaphore/Pointers is the same functions over the memory of WaitList, with every borrow of the
--   list; there a call without fuel left is a fault, and as much fuel as there are calls is enough, since
--   a call adds at most one waiter. Semaphore/Pointers/Calls lets any callers call in any order, and
--   those of Semaphore/System among them (Owners).
-- OnceCell is src/once_cell.rs, over the same queue: `get_or_try_init` as `init_start`,
--   `init_poll`, `init_succeeds`, `init_fails` and `init_drop`; `get_or_init` and `insert` over them are
--   in OnceCell/Futures. OnceCell/System is a cell with the
--   futures that use it; the loop that wakes all is on fuel, one more than there are waiters.
--   OnceCell/Pointers is the cell over the memory of WaitList, with every borrow of the list and every
--   drop of a baton; there too a call without fuel left is a fault, and the number of calls is enough;
--   OnceCell/Pointers/Calls lets any callers
--   call in any order, those of OnceCell/System among them (Owners), and also such as come to the
--   `unreachable!()` of `get_or_try_init` (Panics). OnceCell/Sets is `set`, time and again.
-- BiRc is src/bi_rc.rs, and BroadRc is src/broad_rc.rs. Oneshot is src/oneshot.rs and Spsc is
--   src/spsc.rs, each with a System of the two ends that any owner may use in any order that
--   Rust's ownership admits.
-- Broadcast is src/broadcast.rs, over BroadRc, under the functions' own names, with the futures as
--   `send_start`, `send_poll` and `recv_poll`. Broadcast/Receiver is the state
--   of one receiver. The receivers are in a slab, which is the crate slab: Broadcast/Slab
--   is what is used of it, with the promises of its documentation, which Broadcast/Slab/Rows meets.
--   Broadcast/System is the sender with all its receivers, while fewer than 2 ^ 64 - 1 messages were sent
--   and fewer than that many receivers are there; a message number would come up again behind that.
--
-- A future is a state machine: its first poll, its later polls, and its drop while it waits.
-- Wakers are values of any type; `will_wake` is a test on them that, where a theorem needs it, is
-- true only of wakers of one task. To wake is to note the waker in a list, so a task runs later,
-- never inside the call that wakes it. How much `VecDeque` allocates is chosen by an allocator, of
-- which only is known that it gives at least what is asked for.
--
-- A clone of a message that is sent is the message itself, whatever the `clone` of its type does; that of
-- the value of a cell is a parameter of the cell's `clone`.
--
-- Not modelled: `Debug`, `Display` and `Error`; `noop_cx`. A reference that `get_mut` or
-- `head_input_mut` returns is known by what its holder makes of the value. The addition in
-- `release_permits` wraps around, as it does in a release build.
pub mod Prelude
pub mod Utils
pub mod WaitList
pub mod Semaphore
pub mod BiRc
pub mod Oneshot
pub mod Spsc
pub mod OnceCell
pub mod BroadRc
pub mod Broadcast
