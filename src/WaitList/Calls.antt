-- ===== src/WaitList/Calls.antt =====
-- Any calls of a wait list in any order: the polls and drops of the futures that wait on it, and
-- the calls of those that wake them, each with what it returns.
pub mod Total
pub mod Cells
mod Tests
use unsync.Prelude.{
  ◌≡◌, refl, subst, sym, ap, ◌∙◌, Bool, true, false, ◌||◌, none, some, List, [], ◌∷◌, arith, inl,
  inr, Bool-cases, Option, Option-cases, Poll, pending, ready, Result, is_some, if◌then◌else◌,
}
use unsync.Prelude.Histories.{reply}
use unsync.WaitList.{
  Ptr, State, World, Run, returns, and_then, Cmd, ◌>>=◌, ◌>>◌, pure, new, borrow, drop_borrowed,
  wake_one, head_input, head_input_mut, head_input_at, get_input, wait_start, wait_resume,
  wait_poll, wait_drop,
}
use unsync.WaitList.Links.{Entry, has, first, Links}
use unsync.WaitList.Relink.{load-ok}
use unsync.WaitList.Spec.{Queue, find_done, empty, start}
use unsync.WaitList.Spec
use unsync.WaitList.Refine.{
  Refines, Owned, Reaches, Keeps, Refines-borrow, borrow-ok, drop_borrowed-ok,
}
use unsync.WaitList.Refine.Wake.{wake_one-Reaches}
use unsync.WaitList.Refine.Starts.{wait_start-Reaches}
use unsync.WaitList.Refine.Polls.{poll-Keeps}
use unsync.WaitList.Refine.Drops.{drop-Keeps}

pub data Call (I O W : Type 0) : Type 0 where
  first_poll : Ptr → I → W → Call I O W
  later_poll : Ptr → W → Call I O W
  cancel : Ptr → Call I O W
  wake : O → Call I O W
  look : Call I O W
  change : (I → I) → Call I O W

pub data Reply (I O : Type 0) : Type 0 where
  polled : Poll O → Reply I O
  cancelled : State I O → Reply I O
  woke : Result I O → Reply I O
  looked : Option I → Reply I O

module _ {I O W : Type 0} (will_wake : W → W → Bool) where
  unfoldable pub call : Call I O W → Cmd (World I O W) (Reply I O)
  unfolding wait_start wait_resume wait_poll wait_drop borrow wake_one drop_borrowed head_input
      head_input_mut
  call (first_poll p i cx) = do
    r ← wait_start will_wake p i cx
    o ← wait_resume p r
    pure (polled o)
  call (later_poll p cx) = do o ← wait_poll will_wake p cx; pure (polled o)
  call (cancel p) = do a ← wait_drop p; pure (cancelled a)
  call (wake o) = do borrow; r ← wake_one o; drop_borrowed; pure (woke r)
  call look = do borrow; i ← head_input; drop_borrowed; pure (looked i)
  call (change f) = do borrow; i ← head_input_mut f; drop_borrowed; pure (looked i)

  -- The promise; `none` where no such call can be made: a future is polled first once, in memory
  -- of its own, and is polled and dropped no more after it has ended.
  unfoldable pub promised : Call I O W → Queue I O W → Option (Reply I O × Queue I O W)
  unfolding Spec.poll Spec.drop Spec.wake_one start
  promised (first_poll p i cx) q =
      if has p q.waiting || is_some (find_done p q.done)
      then none
      else some (polled pending, start p i cx q)
  promised (later_poll p cx) q = reply polled (Spec.poll will_wake p cx q)
  promised (cancel p) q = reply cancelled (Spec.drop p q)
  promised (wake o) q = let (r, q') = Spec.wake_one o q in some (woke r, q')
  promised look q = some (looked (Spec.head_input q.waiting), q)
  promised (change f) q =
      some (looked (Spec.head_input q.waiting), record q { waiting = Spec.change_head f q.waiting })
