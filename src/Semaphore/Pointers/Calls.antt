-- ===== src/Semaphore/Pointers/Calls.antt =====
-- Any calls of a semaphore in any order, over the memory of its wait list, each with what it returns.
mod Single
pub mod Runs
pub mod Owners
use unsync.Prelude.{
  ℕ, Bool, true, false, ◌||◌, Option, none, some, List, [], ◌∷◌, Poll, pending, Run, returns, Cmd,
  ◌>>=◌, ◌>>◌, and_then, pure, is_some, if◌then◌else◌,
}
use unsync.WaitList.{Ptr}
use unsync.WaitList.Links.{has}
use unsync.WaitList.Spec.{find_done}
use unsync.Prelude.Histories.{reply}
use unsync.Semaphore.{
  Semaphore, Fairness, add_permits_with, release_permits, leak, contend, acquire_poll, acquire_drop,
}
use unsync.Semaphore.System.{try_of}
use unsync.Semaphore.Pointers.{
  Cells, cells_try, cells_try_unfair, cells_contend, cells_poll, cells_drop, cells_add,
  cells_give_back, cells_leak, available_permits, total_permits,
}

-- A flag tells `acquire_unfair` and `try_acquire_unfair` from `acquire` and `try_acquire`.
pub data Call (W : Type 0) : Type 0 where
  adds : Fairness → ℕ → Call W
  tries : Bool → ℕ → Call W
  first_poll : Bool → Ptr → ℕ → W → Call W
  later_poll : Bool → Ptr → ℕ → W → Call W
  cancel : Ptr → Call W
  gives_back : Fairness → ℕ → Call W
  leaks : ℕ → Call W
  counts : Call W

pub data Reply : Type 0 where
  done : Reply
  tried : Bool → Reply
  polled : Poll ℕ → Reply
  counted : (available total : ℕ) → Reply

module _ {W : Type 0} where
  abbrev pub cells_try_of : Bool → ℕ → Cmd (Cells W) Bool
  cells_try_of true = cells_try_unfair
  cells_try_of false = cells_try

  abbrev pub done_after : Option (Semaphore W) → Option (Reply × Semaphore W)
  done_after none = none
  done_after (some t) = some (done, t)

  abbrev pub tried_after : Semaphore W → Option (Semaphore W) → Option (Reply × Semaphore W)
  tried_after s none = some (tried false, s)
  tried_after s (some t) = some (tried true, t)

  abbrev pub contended : Poll ℕ × Semaphore W → Option (Reply × Semaphore W)
  contended (r, t) = some (polled r, t)

module _ {W : Type 0} (will_wake : W → W → Bool) where
  unfoldable pub call : ℕ → Call W → Cmd (Cells W) Reply
  unfolding cells_add cells_try_unfair cells_try cells_contend cells_poll cells_drop cells_give_back
      cells_leak available_permits total_permits
  call f (adds fairness n) = do cells_add f fairness n; pure done
  call f (tries steal n) = do took ← cells_try_of steal n; pure (tried took)
  call f (first_poll steal p n cx) = do
    r ← cells_contend will_wake (cells_try_of steal) p n cx
    pure (polled r)
  call f (later_poll steal p n cx) = do
    r ← cells_poll will_wake f (cells_try_of steal) p n cx
    pure (polled r)
  call f (cancel p) = do cells_drop f p; pure done
  call f (gives_back fairness n) = do cells_give_back f fairness n; pure done
  call f (leaks n) = do cells_leak n; pure done
  call f counts = do
    available ← available_permits
    total ← total_permits
    pure (counted available total)

  -- The semaphore over the promise of its wait list. `none` where no such call can be made, and
  -- where an addition of permits panics.
  unfoldable pub promised : Call W → Semaphore W → Option (Reply × Semaphore W)
  unfolding add_permits_with contend acquire_poll acquire_drop release_permits leak
  promised (adds fairness n) s = done_after (add_permits_with fairness n s)
  promised (tries steal n) s = tried_after s (try_of steal n s)
  promised (first_poll steal p n cx) s =
      if has p s.waiters.waiting || is_some (find_done p s.waiters.done)
      then none
      else contended (contend (try_of steal) p n cx s)
  promised (later_poll steal p n cx) s =
      reply polled (acquire_poll will_wake (try_of steal) p n cx s)
  promised (cancel p) s = done_after (acquire_drop p s)
  promised (gives_back fairness n) s = done_after (release_permits n fairness s)
  promised (leaks n) s = some (done, leak n s)
  promised counts s = some (counted s.permits s.total_permits, s)
