-- ===== src/Semaphore/Fuel.antt =====
-- The loop of `release_permits`: more fuel than there are waiters makes no difference.
use unsync.Prelude.{
  ℕ, zero, suc, ◌-◌, ◌<◌, ◌≡◌, List, [], ◌∷◌, arith, inl, inr, Bool-cases, length, ltb,
}
use unsync.WaitList.Links.{Entry}
use unsync.Semaphore.{Fairness, fair, unfair, Semaphore, release_loop, wake_head}

module _ {W : Type 0} where
  wake_head-waiting :
      (fairness : Fairness) (new_permits wanted : ℕ) (s : Semaphore W) (e : Entry ℕ W)
      (es : List (Entry ℕ W))
      → s.waiters.waiting ≡ e ∷ es
      → (wake_head fairness new_permits wanted s).waiters.waiting ≡ es
  unfolding wake_head
  wake_head-waiting fair new_permits wanted s e es h = rw h
  wake_head-waiting unfair new_permits wanted s e es h = rw h

  pub release_loop-enough :
      (f g : ℕ) (fairness : Fairness) (permits : ℕ) (s : Semaphore W) (es : List (Entry ℕ W))
      → s.waiters.waiting ≡ es
      → length es < f
      → length es < g
      → release_loop f fairness permits s ≡ release_loop g fairness permits s
  unfolding release_loop
  release_loop-enough zero g fairness permits s es e h k = absurd (omega arith)
  release_loop-enough (suc f) zero fairness permits s es e h k = absurd (omega arith)
  release_loop-enough (suc f) (suc g) fairness permits s [] e h k = rw (e, release_loop)
  release_loop-enough (suc f) (suc g) fairness permits s (x ∷ es) e h k =
      elim (Bool-cases (ltb permits x.input)) [
        | inl less ↦ rw (e, less, release_loop)
        | inr enough ↦
            let s' = wake_head fairness (permits - x.input) x.input s in
            let rest =
              release_loop-enough f g fairness (permits - x.input) s' es
                (wake_head-waiting fairness (permits - x.input) x.input s x es e) (omega arith)
                (omega arith) in
            rw (e, enough, release_loop) rest
      ]
