-- ===== src/Semaphore/Promises.antt =====
-- What one call does to the permits and to those that wait for them.
use unsync.Prelude.{
  ℕ, ◌+◌, ◌≤◌, ◌<◌, ◌≡◌, ◌≢◌, refl, arith, Bool, true, some, none, List, ◌∷◌, Poll, ◌==◌,
}
use unsync.Utils.{word_mod}
use unsync.WaitList.{Ptr}
use unsync.WaitList.Links.{Entry}
use unsync.WaitList.Spec.{remove, find_input, Queue}
use unsync.WaitList.Spec
use unsync.Semaphore.{
  Semaphore, acquire_poll, acquire_drop, drop_state, drop_found, try_acquire_unfair,
}
use unsync.Semaphore.Release.{owed, Blocked, Knows, IsSettled, on_hand}
use unsync.Semaphore.Acquire.{handed_out, acquire_poll-Returns}
use unsync.Semaphore.Cancel.{acquire_drop-Returns}
use unsync.Semaphore.System.{try_of}
use unsync.Semaphore.System.Accounts.{try_of-Tries}

module _ {W : Type 0} (wants : Ptr → ℕ) where
  -- From `s` to `t`, while `out` permits are handed to the caller.
  pub record HandsOut (out : ℕ) (s t : Semaphore W) : Type 0 where
    pub on_hand_less : on_hand t + out ≡ on_hand s
    pub total_same : t.total_permits ≡ s.total_permits
    pub knows : Knows wants t
    pub settled : IsSettled wants t

  -- Where waiters and grants are for what their futures want, nobody at the front is forgotten and the
  -- permits fit into 64 bits, the poll of a future that waits or was woken returns, for `acquire` and
  -- for `acquire_unfair`: what is available and granted afterwards and what is handed out are what was
  -- there before, and nobody at the front is forgotten afterwards.
  pub acquire_poll-HandsOut :
      (will_wake : W → W → Bool) (steal : Bool) (p : Ptr) (cx : W) (s : Semaphore W)
      → Spec.poll will_wake p cx s.waiters ≢ none
      → Knows wants s
      → IsSettled wants s
      → s.permits < word_mod
      → (r : Poll ℕ) × (t : Semaphore W) × (acquire_poll will_wake (try_of steal) p (wants p) cx s
          ≡ some (r, t))
        × HandsOut (handed_out r) s t
  acquire_poll-HandsOut will_wake steal p cx s h k b small =
      let (r, t, run, kept) =
        acquire_poll-Returns (Unit {0}) wants (try_of steal) (try_of-Tries steal) p cx will_wake s h
          k (λ c. b) small in
      (
        r,
        t,
        run,
        record {
          on_hand_less = kept.on_hand_less;
          total_same = kept.total_same;
          knows = kept.knows;
          settled = kept.settled tt;
        },
      )

  -- Where waiters and grants are for what their futures want and the permits fit into 64 bits, and if
  -- nobody at the front is forgotten in the queue without it, the drop of a future that waits or was
  -- woken returns, and loses no permit: what it was granted is released again. Nobody at the front is
  -- forgotten afterwards.
  pub acquire_drop-HandsOut :
      (p : Ptr) (s : Semaphore W)
      → Spec.drop p s.waiters ≢ none
      → Knows wants s
      → Blocked s.permits (owed wants s.waiters.done) (remove p s.waiters.waiting)
      → on_hand s < word_mod
      → (t : Semaphore W) × (acquire_drop p s ≡ some t) × HandsOut 0 s t
  acquire_drop-HandsOut p s h k b small =
      let (t, run, kept) = acquire_drop-Returns (Unit {0}) wants p s h k (λ c. b) small in
      (
        t,
        run,
        record {
          on_hand_less = kept.on_hand_less;
          total_same = kept.total_same;
          knows = kept.knows;
          settled = kept.settled tt;
        },
      )

-- The drop of the future at the front lets the next one move up and does no more: it wakes nobody
-- and hands out nothing, also where the permits that the next one waits for are available, so that
-- an attempt to take them at once would succeed.
pub acquire_drop-strands :
    {W : Type 0} (e b : Entry ℕ W) (es : List (Entry ℕ W)) (s : Semaphore W)
    → s.waiters.waiting ≡ e ∷ b ∷ es
    → b.input ≤ s.permits
    → let t : Semaphore W = record s { waiters = record s.waiters { waiting = b ∷ es } } in
      (acquire_drop e.ptr s ≡ some t) × (try_acquire_unfair b.input t ≢ none)
unfolding acquire_drop Spec.drop drop_found drop_state remove find_input Spec.drop_waiting
    try_acquire_unfair
acquire_drop-strands e b es s h enough =
    let self : (e.ptr == e.ptr) ≡ true = ground arith in
    let found : find_input e.ptr s.waiters.waiting ≡ some e.input = rw (h, self) refl in
    let rest : remove e.ptr s.waiters.waiting ≡ b ∷ es = rw (h, self) refl in
    (rw (found, rest) refl, ground arith)
