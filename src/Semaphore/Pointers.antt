-- ===== src/Semaphore/Pointers.antt =====
-- src/semaphore.rs over the pointers of its wait list, with every borrow of it.
--
-- The semaphore of Semaphore.antt stands on the promise of the wait list; this one on its memory. A
-- loop that runs out of fuel is a fault.
pub mod Stands
pub mod Acquires
pub mod Fresh
pub mod Polls
pub mod Calls
mod Tests
use unsync.Prelude.{
  ℕ, zero, suc, Bool, true, false, Option, none, some, Result, ok, err, Poll, ready, pending, Run,
  returns, panic, abort, fault, Cmd, and_then, pure, ◌>>=◌, ◌>>◌, is_some, if◌then◌else◌,
}
use unsync.Utils.{wrapping_add, wrapping_sub}
use unsync.WaitList.{
  new as new_list, Ptr, State, input, output, World, borrow, drop_borrowed, is_empty, head_input,
  wake_one, wait_start, wait_resume, wait_poll, wait_drop,
}
use unsync.Semaphore.{
  Fairness, fair, unfair, WakeUp, unfair_woken, fair_grant, checked_sub, checked_add,
}

pub record Cells (W : Type 0) : Type 0 where
  pub waiters : World ℕ WakeUp W
  pub permits : ℕ
  pub total_permits : ℕ

module _ {W : Type 0} where
  abbrev pub in_cells : {A : Type 0} → Cells W → Run (World ℕ WakeUp W) A → Run (Cells W) A
  in_cells s (returns a m) = returns a (record s { waiters = m })
  in_cells s panic = panic
  in_cells s abort = abort
  in_cells s fault = fault

  -- A step of the wait list.
  abbrev pub on_waiters : {A : Type 0} → Cmd (World ℕ WakeUp W) A → Cmd (Cells W) A
  on_waiters m s = in_cells s (m s.waiters)

  -- A fair wake commits the deduction.
  unfoldable pub wake_for : Fairness → ℕ → ℕ → Cmd (Cells W) WakeUp
  wake_for fair permits wanted s = returns (fair_grant wanted) (record s { permits = permits })
  wake_for unfair permits wanted s = returns unfair_woken s

  -- The rest of a round, on what `wake_one` returns; `unreachable!()` panics.
  unfoldable pub woke : Cmd (Cells W) (Unit {0}) → Result ℕ WakeUp → Cmd (Cells W) (Unit {0})
  woke rest (ok i) = rest
  woke rest (err wake) = λ s. panic

  -- A round of the loop, on what is left behind the head; `rest` is the loop on from there.
  unfoldable pub cells_left :
      (ℕ → Cmd (Cells W) (Unit {0})) → Fairness → ℕ → Option ℕ → Cmd (Cells W) (Unit {0})
  unfolding wake_for wake_one woke
  cells_left rest fairness wanted none = pure tt
  cells_left rest fairness wanted (some new_permits) = do
    wake ← wake_for fairness new_permits wanted
    r ← on_waiters (wake_one wake)
    woke (rest new_permits) r

  unfoldable pub cells_head :
      (ℕ → Cmd (Cells W) (Unit {0})) → Fairness → ℕ → Option ℕ → Cmd (Cells W) (Unit {0})
  unfolding cells_left
  cells_head rest fairness permits none = pure tt
  cells_head rest fairness permits (some wanted) =
      cells_left rest fairness wanted (checked_sub permits wanted)

  unfoldable pub cells_loop : ℕ → Fairness → ℕ → Cmd (Cells W) (Unit {0})
  unfolding head_input cells_head
  cells_loop zero fairness permits = λ s. fault
  cells_loop (suc f) fairness permits = do
    head ← on_waiters head_input
    cells_head (cells_loop f fairness) fairness permits head

  unfoldable pub cells_set : ℕ → Cmd (Cells W) (Unit {0})
  cells_set permits s = returns tt (record s { permits = permits })

  -- `release_permits`, on as much fuel as is given.
  unfoldable pub cells_release : ℕ → ℕ → Fairness → Cmd (Cells W) (Unit {0})
  unfolding wrapping_add cells_set borrow cells_loop drop_borrowed
  cells_release f n fairness s =
      let permits = wrapping_add s.permits n in
      (do
        cells_set permits
        on_waiters borrow
        cells_loop f fairness permits
        on_waiters drop_borrowed)
        s

  -- `try_acquire_unfair`, and `try_acquire`: whether there is a permit.
  unfoldable pub cells_taken : Option ℕ → Cmd (Cells W) Bool
  unfolding cells_set
  cells_taken none = pure false
  cells_taken (some new_permits) = do cells_set new_permits; pure true

  unfoldable pub cells_try_unfair : ℕ → Cmd (Cells W) Bool
  unfolding cells_taken
  cells_try_unfair n s = cells_taken (checked_sub s.permits n) s

  unfoldable pub cells_try : ℕ → Cmd (Cells W) Bool
  unfolding borrow is_empty drop_borrowed cells_try_unfair
  cells_try n = do
    on_waiters borrow
    empty ← on_waiters is_empty
    on_waiters drop_borrowed
    if empty then cells_try_unfair n else pure false

  -- The first poll of a future `wait` is not ready; if it were, this would be a fault.
  unfoldable pub cells_begun : Poll (Unit {0}) → Cmd (Cells W) (Poll ℕ)
  cells_begun pending = pure pending
  cells_begun (ready u) = λ s. fault

  -- The top of the loop of `acquire`, on what its try comes to; the future `wait` begins.
  unfoldable pub cells_waits : (W → W → Bool) → Ptr → ℕ → W → Bool → Cmd (Cells W) (Poll ℕ)
  unfolding wait_start cells_begun
  cells_waits will_wake p n cx true = pure (ready n)
  cells_waits will_wake p n cx false = do
    begun ← on_waiters (wait_start will_wake p n cx)
    cells_begun begun

  unfoldable pub cells_contend :
      (W → W → Bool) → (ℕ → Cmd (Cells W) Bool) → Ptr → ℕ → W → Cmd (Cells W) (Poll ℕ)
  unfolding cells_waits
  cells_contend will_wake try p n cx = do taken ← try n; cells_waits will_wake p n cx taken

  -- After an unfair wake: the token is forgotten, or dropped before the next round.
  unfoldable pub cells_retries :
      (W → W → Bool) → ℕ → (ℕ → Cmd (Cells W) Bool) → Ptr → ℕ → W → Bool → Cmd (Cells W) (Poll ℕ)
  unfolding cells_release cells_contend
  cells_retries will_wake f try p n cx true = pure (ready n)
  cells_retries will_wake f try p n cx false = do
    cells_release f 0 unfair
    cells_contend will_wake try p n cx

  -- `match` on what the future `wait` hands over.
  unfoldable pub cells_resume :
      (W → W → Bool)
      → ℕ
      → (ℕ → Cmd (Cells W) Bool)
      → Ptr
      → ℕ
      → W
      → Poll WakeUp
      → Cmd (Cells W) (Poll ℕ)
  unfolding cells_try_unfair cells_retries
  cells_resume will_wake f try p n cx pending = pure pending
  cells_resume will_wake f try p n cx (ready (fair_grant g)) = pure (ready n)
  cells_resume will_wake f try p n cx (ready unfair_woken) = do
    taken ← cells_try_unfair n
    cells_retries will_wake f try p n cx taken

  unfoldable pub cells_poll :
      (W → W → Bool) → ℕ → (ℕ → Cmd (Cells W) Bool) → Ptr → ℕ → W → Cmd (Cells W) (Poll ℕ)
  unfolding wait_poll cells_resume
  cells_poll will_wake f try p n cx = do
    woken ← on_waiters (wait_poll will_wake p cx)
    cells_resume will_wake f try p n cx woken

  -- What the drop of a waiting future leaves to be dropped, and that drop.
  unfoldable pub cells_drop_state : ℕ → State ℕ WakeUp → Cmd (Cells W) (Unit {0})
  unfolding cells_release
  cells_drop_state f (input n) = pure tt
  cells_drop_state f (output unfair_woken) = cells_release f 0 unfair
  cells_drop_state f (output (fair_grant g)) = cells_release f g unfair

  unfoldable pub cells_drop : ℕ → Ptr → Cmd (Cells W) (Unit {0})
  unfolding wait_drop cells_drop_state
  cells_drop f p = do state ← on_waiters (wait_drop p); cells_drop_state f state

  unfoldable pub cells_new : ℕ → Cells W
  unfolding new_list
  cells_new permits = record { waiters = new_list; permits = permits; total_permits = permits }

  -- `add_permits` and `add_permits_fair`: the overflow panics, before anything is changed.
  unfoldable pub cells_added : ℕ → Fairness → ℕ → Option ℕ → Cmd (Cells W) (Unit {0})
  unfolding cells_release
  cells_added f fairness n none = λ s. panic
  cells_added f fairness n (some total) =
      λ s. cells_release f n fairness (record s { total_permits = total })

  unfoldable pub cells_add : ℕ → Fairness → ℕ → Cmd (Cells W) (Unit {0})
  unfolding cells_added
  cells_add f fairness n s = cells_added f fairness n (checked_add s.total_permits n) s

  -- `Drop` of a `Permit`, `Permit::release_fair` and `Permit::leak`
  unfoldable pub cells_give_back : ℕ → Fairness → ℕ → Cmd (Cells W) (Unit {0})
  unfolding cells_release
  cells_give_back f fairness n = cells_release f n fairness

  unfoldable pub cells_leak : ℕ → Cmd (Cells W) (Unit {0})
  unfolding wrapping_sub
  cells_leak n s = returns tt (record s { total_permits = wrapping_sub s.total_permits n })

  unfoldable pub available_permits : Cmd (Cells W) ℕ
  available_permits s = returns s.permits s

  unfoldable pub total_permits : Cmd (Cells W) ℕ
  total_permits s = returns s.total_permits s
