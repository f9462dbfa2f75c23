-- ===== src/Semaphore/Pointers/Fresh.antt =====
-- An address where no future of a semaphore waits, and none was woken.
use unsync.Prelude.{
  ℕ, zero, suc, ◌≡◌, refl, subst, false, Option, none, some, Option-cases, List, [], ◌∷◌, inl, inr,
  arith, length, Bool-cases, ◌==◌,
}
use unsync.Utils.{wrapping_add}
use unsync.WaitList.{Ptr, World}
use unsync.WaitList.Links.{Entry, has}
use unsync.WaitList.Spec.{Queue, find_done, remove_done, start}
use unsync.WaitList.Spec
use unsync.WaitList.Refine.{AreDone}
use unsync.Semaphore.{
  Semaphore, Fairness, fair, unfair, WakeUp, unfair_woken, fair_grant, checked_sub, wake_head,
  release_loop, release_permits,
}

module _ {W : Type 0} (p : Ptr) where
  -- No future waits at `p` or was woken there.
  abbrev pub IsFresh : Semaphore W → Type 0
  IsFresh s = (has p s.waiters.waiting ≡ false) × (find_done p s.waiters.done ≡ none)

  abbrev FreshIf : Option (Semaphore W) → Type 0
  FreshIf none = Unit {0}
  FreshIf (some s) = IsFresh s

  wake_front-IsFresh :
      (o : WakeUp) (es : List (Entry ℕ W)) (q : Queue ℕ WakeUp W)
      → q.waiting ≡ es
      → has p q.waiting ≡ false
      → find_done p q.done ≡ none
      → let q' = (Spec.wake_front es o q).1 in
        (has p q'.waiting ≡ false) × (find_done p q'.done ≡ none)
  unfolding Spec.wake_front find_done
  wake_front-IsFresh o [] q e h d = (h, d)
  wake_front-IsFresh o (x ∷ es) q e h d =
      let h' : has p (x ∷ es) ≡ false = rw e at h in ground arith

  wake_head-IsFresh :
      (fairness : Fairness) (new_permits wanted : ℕ) (s : Semaphore W)
      → IsFresh s
      → IsFresh (wake_head fairness new_permits wanted s)
  unfolding wake_head Spec.wake_one
  wake_head-IsFresh fair new_permits wanted s (h, d) =
      wake_front-IsFresh (fair_grant wanted) s.waiters.waiting s.waiters refl h d
  wake_head-IsFresh unfair new_permits wanted s (h, d) =
      wake_front-IsFresh unfair_woken s.waiters.waiting s.waiters refl h d

  release_loop-FreshIf :
      (f : ℕ) (fairness : Fairness) (permits : ℕ) (s : Semaphore W)
      → IsFresh s
      → FreshIf (release_loop f fairness permits s)
  unfolding release_loop
  release_loop-FreshIf zero fairness permits s v = tt
  release_loop-FreshIf (suc f) fairness permits s v =
      elim (Option-cases (Spec.head_input s.waiters.waiting)) [
        | inl e ↦ rw (release_loop, e) v
        | inr (wanted, e) ↦ elim (Option-cases (checked_sub permits wanted)) [
          | inl few ↦ rw (release_loop, e) (rw few v)
          | inr (new_permits, enough) ↦
              rw (release_loop, e)
                (rw enough (
                  release_loop-FreshIf f fairness new_permits
                    (wake_head fairness new_permits wanted s)
                    (wake_head-IsFresh fairness new_permits wanted s v)))
        ]
      ]

  pub release_permits-IsFresh :
      (n : ℕ) (fairness : Fairness) (s : Semaphore W) {t : Semaphore W}
      → release_permits n fairness s ≡ some t
      → IsFresh s
      → IsFresh t
  unfolding release_permits
  release_permits-IsFresh n fairness s e v =
      let permits = wrapping_add s.permits n in
      subst FreshIf e (
        release_loop-FreshIf (suc (length s.waiters.waiting)) fairness permits
          (record s { permits = permits }) v)

  -- A future that ended is gone.
  pub find_done-removed :
      (o : WakeUp) (es : List (Entry ℕ W)) (m : World ℕ WakeUp W) (ds : List (Ptr × WakeUp))
      → AreDone es m ds
      → find_done p ds ≡ some o
      → find_done p (remove_done p ds) ≡ none
  unfolding find_done remove_done
  find_done-removed o es m [] a h = refl
  find_done-removed o es m ((q, r) ∷ ds) (d, out, new, rest) h = elim (Bool-cases (p == q)) [
    | inl here ↦ let same : p ≡ q = ground arith in rw here (rw same new)
    | inr other ↦ rw other (rw other (find_done-removed o es m ds rest (rw other at h)))
  ]
