-- ===== src/Utils/Wakers.antt =====
-- Wakers in their slots: registering one for a later wake, and waking the one that is there.
use unsync.Prelude.{
  ◌≡◌, refl, inl, inr, Bool, true, Option, none, some, List, ◌∷◌, Bool-cases, if◌then◌else◌,
}

module _ {ℓ} {W : Type ℓ} where
  -- `if !matches!(&slot, Some(w) if w.will_wake(cx.waker())) { slot = Some(cx.waker().clone()) }`
  unfoldable pub register : (W → W → Bool) → Option W → W → Option W
  register will_wake none cx = some cx
  register will_wake (some w) cx = if will_wake w cx then some w else some cx

  -- `if let Some(w) = &slot { w.wake_by_ref() }`, also for `slot.take()` and `w.wake()`
  unfoldable pub wake : Option W → List W → List W
  wake none woken = woken
  wake (some w) woken = w ∷ woken

  -- What is registered wakes the task that polled, by the promise that `will_wake` makes.
  pub register-task {κ} :
      {Task : Type κ} (task : W → Task) (will_wake : W → W → Bool)
      → ((v w : W) → will_wake v w ≡ true → task v ≡ task w)
      → (slot : Option W) (cx : W)
      → (w : W) × (register will_wake slot cx ≡ some w) × (task w ≡ task cx)
  unfolding register
  register-task task will_wake sound none cx = (cx, refl, refl)
  register-task task will_wake sound (some w) cx = elim (Bool-cases (will_wake w cx)) [
    | inl same ↦ (w, rw (same, register), sound w cx same)
    | inr other ↦ (cx, rw (other, register), refl)
  ]
