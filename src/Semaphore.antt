-- ===== src/Semaphore.antt =====
-- src/semaphore.rs, over the promise of its wait list (WaitList/Spec.antt), which the pointers keep.
--
-- No call of the semaphore keeps the wait list borrowed when it ends or when other code runs, so
-- `borrow` never panics here and is left out; Semaphore/Pointers has it. The futures `acquire` and `acquire_unfair` are state
-- machines with three entries: the first poll, a later poll, and the drop while they wait; the
-- address of a future is that of the waiter inside it. `none` stands for a call that the caller
-- cannot make, such as the poll of a future that has ended.
pub mod Release
pub mod Fuel
pub mod Order
pub mod Waiters
pub mod Acquire
pub mod Cancel
pub mod System
pub mod Waiting
pub mod Promises
pub mod Pointers
mod Tests
use unsync.Prelude.{
  ℕ, zero, suc, ◌+◌, ◌-◌, Bool, Option, none, some, Poll, ready, pending, ltb, if◌then◌else◌,
  is_some, length,
}
use unsync.Utils.{word_mod, wrapping_add, wrapping_sub}
use unsync.WaitList.{Ptr, State, input, output}
use unsync.WaitList.Spec.{Queue, empty, head_input, start}
use unsync.WaitList.Spec

pub data Fairness : Type 0 where
  fair unfair : Fairness

-- The token of an unfair wake holds nothing but the semaphore, a grant also the permits.
pub data WakeUp : Type 0 where
  unfair_woken : WakeUp
  fair_grant : ℕ → WakeUp

pub record Semaphore (W : Type 0) : Type 0 where
  pub waiters : Queue ℕ WakeUp W
  pub permits : ℕ
  pub total_permits : ℕ

-- `usize::checked_sub` and `usize::checked_add`
abbrev pub checked_sub : ℕ → ℕ → Option ℕ
checked_sub a b = if ltb a b then none else some (a - b)

abbrev pub checked_add : ℕ → ℕ → Option ℕ
checked_add a b = if ltb (a + b) word_mod then some (a + b) else none

module _ {W : Type 0} where
  unfoldable pub new : ℕ → Semaphore W
  unfolding empty
  new permits = record { waiters = empty; permits = permits; total_permits = permits }

  -- One round of the loop of `release_permits`, for a waiter that wants no more than is left.
  unfoldable pub wake_head : Fairness → (new_permits wanted : ℕ) → Semaphore W → Semaphore W
  unfolding Spec.wake_one
  wake_head fair new_permits wanted s = record s {
    permits = new_permits;
    waiters = (Spec.wake_one (fair_grant wanted) s.waiters).1;
  }
  wake_head unfair new_permits wanted s = record s {
    waiters = (Spec.wake_one unfair_woken s.waiters).1;
  }

  -- The loop, on fuel; `none` if the fuel runs out.
  unfoldable pub release_loop : ℕ → Fairness → ℕ → Semaphore W → Option (Semaphore W)
  unfolding head_input wake_head
  release_loop zero fairness permits s = none
  release_loop (suc f) fairness permits s = elim (head_input s.waiters.waiting) [
    | none ↦ some s
    | some wanted ↦ elim (checked_sub permits wanted) [
      | none ↦ some s
      | some new_permits ↦
          release_loop f fairness new_permits (wake_head fairness new_permits wanted s)
    ]
  ]

  unfoldable pub release_permits : ℕ → Fairness → Semaphore W → Option (Semaphore W)
  unfolding release_loop wrapping_add
  release_permits n fairness s =
      let permits = wrapping_add s.permits n in
      release_loop (suc (length s.waiters.waiting)) fairness permits
        (record s { permits = permits })

  -- `none` is the panic on overflow.
  unfoldable pub add_permits_with : Fairness → ℕ → Semaphore W → Option (Semaphore W)
  unfolding release_permits
  add_permits_with fairness n s = elim (checked_add s.total_permits n) [
    | none ↦ none
    | some total ↦ release_permits n fairness (record s { total_permits = total })
  ]

  unfoldable pub add_permits : ℕ → Semaphore W → Option (Semaphore W)
  unfolding add_permits_with
  add_permits = add_permits_with unfair

  unfoldable pub add_permits_fair : ℕ → Semaphore W → Option (Semaphore W)
  unfolding add_permits_with
  add_permits_fair = add_permits_with fair

  -- A `Permit` is the number of its permits; here it is the argument, and is not repeated.
  unfoldable pub try_acquire_unfair : ℕ → Semaphore W → Option (Semaphore W)
  try_acquire_unfair n s = elim (checked_sub s.permits n) [
    | none ↦ none
    | some new_permits ↦ some (record s { permits = new_permits })
  ]

  unfoldable pub try_acquire : ℕ → Semaphore W → Option (Semaphore W)
  unfolding try_acquire_unfair head_input
  try_acquire n s = if is_some (head_input s.waiters.waiting) then none else try_acquire_unfair n s

  -- `Drop` of a `Permit`, `Permit::release_fair` and `Permit::leak`
  unfoldable pub drop_permit : ℕ → Semaphore W → Option (Semaphore W)
  unfolding release_permits
  drop_permit n = release_permits n unfair

  unfoldable pub release_fair : ℕ → Semaphore W → Option (Semaphore W)
  unfolding release_permits
  release_fair n = release_permits n fair

  unfoldable pub leak : ℕ → Semaphore W → Semaphore W
  unfolding wrapping_sub
  leak n s = record s { total_permits = wrapping_sub s.total_permits n }

  -- The top of the loops of `acquire` and `acquire_unfair`, which differ in how they try first.
  unfoldable pub contend :
      (ℕ → Semaphore W → Option (Semaphore W)) → Ptr → ℕ → W → Semaphore W → Poll ℕ × Semaphore W
  unfolding start
  contend try p n cx s = elim (try n s) [
    | some s' ↦ (ready n, s')
    | none ↦ (pending, record s { waiters = start p n cx s.waiters })
  ]

  unfoldable pub woken_unfair :
      (ℕ → Semaphore W → Option (Semaphore W))
      → Ptr
      → ℕ
      → W
      → Semaphore W
      → Option (Poll ℕ × Semaphore W)
  unfolding try_acquire_unfair release_permits contend
  woken_unfair try p n cx s = elim (try_acquire_unfair n s) [
    | some s' ↦ some (ready n, s')
    | none ↦ elim (release_permits 0 unfair s) [
      | none ↦ none
      | some s' ↦ some (contend try p n cx s')
    ]
  ]

  -- The `match` on what the wait list handed over, at a poll that finds it.
  unfoldable pub resume :
      (ℕ → Semaphore W → Option (Semaphore W))
      → Ptr
      → ℕ
      → W
      → Poll WakeUp
      → Semaphore W
      → Option (Poll ℕ × Semaphore W)
  unfolding woken_unfair
  resume try p n cx pending s = some (pending, s)
  resume try p n cx (ready unfair_woken) s = woken_unfair try p n cx s
  resume try p n cx (ready (fair_grant g)) s = some (ready n, s)

  unfoldable pub resume_found :
      (ℕ → Semaphore W → Option (Semaphore W))
      → Ptr
      → ℕ
      → W
      → Semaphore W
      → Option (Poll WakeUp × Queue ℕ WakeUp W)
      → Option (Poll ℕ × Semaphore W)
  unfolding resume
  resume_found try p n cx s none = none
  resume_found try p n cx s (some (r, q)) = resume try p n cx r (record s { waiters = q })

  unfoldable pub acquire_poll :
      (W → W → Bool)
      → (ℕ → Semaphore W → Option (Semaphore W))
      → Ptr
      → ℕ
      → W
      → Semaphore W
      → Option (Poll ℕ × Semaphore W)
  unfolding Spec.poll resume_found
  acquire_poll will_wake try p n cx s =
      resume_found try p n cx s (Spec.poll will_wake p cx s.waiters)

  -- `Drop` of `UnfairWoken` and of `FairGrant`; an input is a number and has none.
  unfoldable pub drop_state : State ℕ WakeUp → Semaphore W → Option (Semaphore W)
  unfolding release_permits
  drop_state (input n) s = some s
  drop_state (output unfair_woken) s = release_permits 0 unfair s
  drop_state (output (fair_grant g)) s = release_permits g unfair s

  unfoldable pub drop_found :
      Semaphore W → Option (State ℕ WakeUp × Queue ℕ WakeUp W) → Option (Semaphore W)
  unfolding drop_state
  drop_found s none = none
  drop_found s (some (a, q)) = drop_state a (record s { waiters = q })

  -- The future is dropped while it waits, or woken and before it was polled again.
  unfoldable pub acquire_drop : Ptr → Semaphore W → Option (Semaphore W)
  unfolding Spec.drop drop_found
  acquire_drop p s = drop_found s (Spec.drop p s.waiters)
