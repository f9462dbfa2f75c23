-- ===== src/WaitList/Spec/Cases.antt =====
-- The outcomes of a poll and of a drop, one for each place where the future may be found.
use unsync.Prelude.{◌≡◌, refl, Bool, none, some, Option, inl, inr, Bool-cases, Poll, ready, pending}
use unsync.WaitList.Memory.{Ptr, State, input, output}
use unsync.WaitList.Links.{has}
use unsync.WaitList.Spec.{
  Queue, find_done, find_input, remove, remove_done, update, repoll, poll, drop, take_done,
  drop_waiting, drop_done,
}

module _ {I O W : Type 0} where
  -- A poll leaves a future that waits pending, with its waker updated, or ends one that was woken.
  pub data Polled (will_wake : W → W → Bool) (p : Ptr) (cx : W) (q : Queue I O W)
      : Option (Poll O × Queue I O W) → Type 0 where
    missing : Polled will_wake p cx q none
    waits :
        Polled will_wake p cx q
          (some (pending, record q { waiting = update (repoll will_wake cx) p q.waiting }))
    ends :
        (o : O)
        → find_done p q.done ≡ some o
        → Polled will_wake p cx q (some (ready o, record q { done = remove_done p q.done }))

  pub data Dropped (p : Ptr) (q : Queue I O W) : Option (State I O × Queue I O W) → Type 0 where
    missing : Dropped p q none
    waited :
        (i : I)
        → find_input p q.waiting ≡ some i
        → Dropped p q (some (input i, record q { waiting = remove p q.waiting }))
    woken :
        (o : O)
        → find_done p q.done ≡ some o
        → Dropped p q (some (output o, record q { done = remove_done p q.done }))

  module _ (p : Ptr) (q : Queue I O W) where
    take_done-Polled :
        (will_wake : W → W → Bool) (cx : W) (o : Option O)
        → find_done p q.done ≡ o
        → Polled will_wake p cx q (take_done p o q)
    unfolding take_done
    take_done-Polled will_wake cx none h = missing
    take_done-Polled will_wake cx (some o) h = ends o h

    pub poll-Polled :
        (will_wake : W → W → Bool) (cx : W) → Polled will_wake p cx q (poll will_wake p cx q)
    unfolding poll
    poll-Polled will_wake cx = elim (Bool-cases (has p q.waiting)) [
      | inl h ↦ rw h waits
      | inr h ↦ rw h (take_done-Polled will_wake cx (find_done p q.done) refl)
    ]

    drop_done-Dropped : (o : Option O) → find_done p q.done ≡ o → Dropped p q (drop_done p o q)
    unfolding drop_done
    drop_done-Dropped none h = missing
    drop_done-Dropped (some o) h = woken o h

    drop_waiting-Dropped :
        (i : Option I) → find_input p q.waiting ≡ i → Dropped p q (drop_waiting p i q)
    unfolding drop_waiting
    drop_waiting-Dropped none h = drop_done-Dropped (find_done p q.done) refl
    drop_waiting-Dropped (some i) h = waited i h

    pub drop-Dropped : Dropped p q (drop p q)
    unfolding drop
    drop-Dropped = drop_waiting-Dropped (find_input p q.waiting) refl
