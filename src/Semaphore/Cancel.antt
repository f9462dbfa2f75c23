-- ===== src/Semaphore/Cancel.antt =====
-- The drop of a future `acquire` or `acquire_unfair` that waits, or was woken.
use unsync.Prelude.{ℕ, ◌<◌, ◌≡◌, ◌≢◌, refl, sym, subst, ◌∙◌, some, none, Option, arith}
use unsync.Utils.{word_mod}
use unsync.WaitList.{Ptr, State}
use unsync.WaitList.Spec.{Queue, remove, remove_done}
use unsync.WaitList.Spec
use unsync.WaitList.Spec.Cases.{Dropped, missing, waited, woken, drop-Dropped}
use unsync.Semaphore.{
  WakeUp, unfair_woken, fair_grant, unfair, Semaphore, drop_found, drop_state, acquire_drop,
}
use unsync.Semaphore.Release.{owed, Blocked, Knows, on_hand, release_permits-Released}
use unsync.Semaphore.Waiters.{remove-unfair, remove-fair, InputsOf-remove}
use unsync.Semaphore.Acquire.{Kept}

module _ {W : Type 0} where
  module _ (Calm : Type 0) (wants : Ptr → ℕ) (p : Ptr) where
    -- Of a future that is dropped, what it was granted goes back, and its wake goes on.
    drop_found-Kept :
        (s : Semaphore W) {x : Option (State ℕ WakeUp × Queue ℕ WakeUp W)}
        → Dropped p s.waiters x
        → x ≢ none
        → Knows wants s
        → (Calm → Blocked s.permits (owed wants s.waiters.done) (remove p s.waiters.waiting))
        → on_hand s < word_mod
        → (t : Semaphore W) × (drop_found s x ≡ some t) × Kept Calm wants 0 s t
    unfolding drop_found drop_state
    drop_found-Kept s missing here k b small = absurd (here refl)
    drop_found-Kept s (waited i h) here k b small = (
      _,
      refl,
      record {
        on_hand_less = omega arith;
        total_same = refl;
        knows = record {
          inputs = InputsOf-remove wants p s.waiters.waiting k.inputs;
          grants = k.grants;
        };
        settled = b;
      },
    )
    drop_found-Kept s (woken unfair_woken h) here k b small =
        let (g, o, k') = remove-unfair wants p s.waiters.done h k.grants in
        let (t, run, rel) =
          release_permits-Released wants 0 unfair
            (record s { waiters = record s.waiters { done = remove_done p s.waiters.done } })
            (record { inputs = k.inputs; grants = k' }) (omega arith) in
        (
          t,
          run,
          record {
            on_hand_less = omega (arith, rel.on_hand_same, g);
            total_same = rel.total_same;
            knows = rel.knows;
            settled = λ c. rel.settled;
          },
        )
    drop_found-Kept s (woken (fair_grant n) h) here k b small =
        let (g, e, o, k') = remove-fair wants p s.waiters.done n h k.grants in
        let (t, run, rel) =
          release_permits-Released wants n unfair
            (record s { waiters = record s.waiters { done = remove_done p s.waiters.done } })
            (record { inputs = k.inputs; grants = k' }) (omega (arith, g)) in
        (
          t,
          run,
          record {
            on_hand_less = omega (arith, rel.on_hand_same, g);
            total_same = rel.total_same;
            knows = rel.knows;
            settled = λ c. rel.settled;
          },
        )

    -- The drop of a future that waits or was woken returns.
    pub acquire_drop-Returns :
        (s : Semaphore W)
        → Spec.drop p s.waiters ≢ none
        → Knows wants s
        → (Calm → Blocked s.permits (owed wants s.waiters.done) (remove p s.waiters.waiting))
        → on_hand s < word_mod
        → (t : Semaphore W) × (acquire_drop p s ≡ some t) × Kept Calm wants 0 s t
    unfolding acquire_drop
    acquire_drop-Returns s = drop_found-Kept s (drop-Dropped p s.waiters)

    acquire_drop-missing :
        (s : Semaphore W) → Spec.drop p s.waiters ≡ none → acquire_drop p s ≡ none
    unfolding acquire_drop
    acquire_drop-missing s e = rw e

    abbrev DroppedIf : Semaphore W → Option (Semaphore W) → Type 0
    DroppedIf s none = Unit {0}
    DroppedIf s (some t) = Kept Calm wants 0 s t

    pub acquire_drop-Kept :
        (s : Semaphore W) {t : Semaphore W}
        → acquire_drop p s ≡ some t
        → Knows wants s
        → (Calm → Blocked s.permits (owed wants s.waiters.done) (remove p s.waiters.waiting))
        → on_hand s < word_mod
        → Kept Calm wants 0 s t
    acquire_drop-Kept s h k b small =
        let (t', run, kept) =
          acquire_drop-Returns s (λ e. let missed = acquire_drop-missing s e in cc) k b small in
        subst (DroppedIf s) (sym run ∙ h) kept
