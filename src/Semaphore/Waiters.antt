-- ===== src/Semaphore/Waiters.antt =====
-- What the calls of the wait list do to the semaphore's accounts.
use unsync.Prelude.{
  ℕ, ◌+◌, ◌≤◌, ◌<◌, ◌≡◌, refl, Bool, true, false, some, none, List, [], ◌∷◌, ◌++◌, arith, inl, inr,
  Bool-cases, ◌==◌, if◌then◌else◌,
}
use unsync.WaitList.{Ptr}
use unsync.WaitList.Links.{Entry, has}
use unsync.WaitList.Spec.{find_done, remove_done, remove, update, repoll}
use unsync.Semaphore.{WakeUp, unfair_woken, fair_grant}
use unsync.Semaphore.Release.{granted, owed, GrantsOf, InputsOf, Blocked}

module _ (wants : Ptr → ℕ) (p : Ptr) where
  -- The end of a future that an unfair wake was on its way to.
  pub remove-unfair :
      (ds : List (Ptr × WakeUp))
      → find_done p ds ≡ some unfair_woken
      → GrantsOf wants ds
      → (granted (remove_done p ds) ≡ granted ds)
        × (wants p + owed wants (remove_done p ds) ≡ owed wants ds)
        × GrantsOf wants (remove_done p ds)
  unfolding find_done remove_done
  remove-unfair [] h k = cc
  remove-unfair ((q, unfair_woken) ∷ ds) h k = ground (arith, remove-unfair ds)
  remove-unfair ((q, fair_grant g) ∷ ds) h k = ground (arith, remove-unfair ds)

  -- The end of a future that was granted its permits.
  pub remove-fair :
      (ds : List (Ptr × WakeUp)) (g : ℕ)
      → find_done p ds ≡ some (fair_grant g)
      → GrantsOf wants ds
      → (g + granted (remove_done p ds) ≡ granted ds)
        × (g ≡ wants p)
        × (owed wants (remove_done p ds) ≡ owed wants ds)
        × GrantsOf wants (remove_done p ds)
  unfolding find_done remove_done
  remove-fair [] g h k = cc
  remove-fair ((q, unfair_woken) ∷ ds) g h k = ground (arith, remove-fair ds g)
  remove-fair ((q, fair_grant f) ∷ ds) g h k = ground (arith, remove-fair ds g)

-- What each future wants, when the one at `p` comes to want `n`.
abbrev pub wanting : (Ptr → ℕ) → Ptr → ℕ → Ptr → ℕ
wanting wants p n a = if a == p then n else wants a

module _ (wants : Ptr → ℕ) (p : Ptr) (n : ℕ) where
  pub owed-wanting :
      (ds : List (Ptr × WakeUp))
      → find_done p ds ≡ none
      → owed (wanting wants p n) ds ≡ owed wants ds
  unfolding find_done
  owed-wanting [] h = refl
  owed-wanting ((q, unfair_woken) ∷ ds) h = ground (arith, owed-wanting ds)
  owed-wanting ((q, fair_grant g) ∷ ds) h = ground (arith, owed-wanting ds)

  pub GrantsOf-wanting :
      (ds : List (Ptr × WakeUp))
      → find_done p ds ≡ none
      → GrantsOf wants ds
      → GrantsOf (wanting wants p n) ds
  unfolding find_done
  GrantsOf-wanting [] h k = tt
  GrantsOf-wanting ((q, unfair_woken) ∷ ds) h k = ground (arith, GrantsOf-wanting ds)
  GrantsOf-wanting ((q, fair_grant g) ∷ ds) h k = ground (arith, GrantsOf-wanting ds)

  pub InputsOf-wanting :
      {W : Type 0} (es : List (Entry ℕ W))
      → has p es ≡ false
      → InputsOf wants es
      → InputsOf (wanting wants p n) es
  InputsOf-wanting [] h k = tt
  InputsOf-wanting (e ∷ es) h k = ground (arith, InputsOf-wanting es)

module _ {W : Type 0} where
  module _ (wants : Ptr → ℕ) where
    pub InputsOf-snoc :
        (es : List (Entry ℕ W)) (e : Entry ℕ W)
        → InputsOf wants es
        → e.input ≡ wants e.ptr
        → InputsOf wants (es ++ (e ∷ []))
    InputsOf-snoc [] e k h = (h, tt)
    InputsOf-snoc (x ∷ es) e k h = (k.0, InputsOf-snoc es e k.1 h)

    pub InputsOf-remove :
        (p : Ptr) (es : List (Entry ℕ W)) → InputsOf wants es → InputsOf wants (remove p es)
    unfolding remove
    InputsOf-remove p [] k = tt
    InputsOf-remove p (e ∷ es) k = ground (arith, InputsOf-remove p es k.1)

    pub InputsOf-repoll :
        (will_wake : W → W → Bool) (cx : W) (p : Ptr) (es : List (Entry ℕ W))
        → InputsOf wants es
        → InputsOf wants (update (repoll will_wake cx) p es)
    unfolding update repoll
    InputsOf-repoll will_wake cx p [] k = tt
    InputsOf-repoll will_wake cx p (e ∷ es) k =
        ground (arith, InputsOf-repoll will_wake cx p es k.1)

  -- Fewer permits, or less of them reserved for others, and the front stays blocked.
  pub Blocked-mono :
      (a b r u : ℕ) (es : List (Entry ℕ W)) → Blocked a r es → b + r ≤ a + u → Blocked b u es
  Blocked-mono a b r u [] h k = tt
  Blocked-mono a b r u (e ∷ es) h k = omega arith

  pub Blocked-repoll :
      (a r : ℕ) (will_wake : W → W → Bool) (cx : W) (p : Ptr) (es : List (Entry ℕ W))
      → Blocked a r es
      → Blocked a r (update (repoll will_wake cx) p es)
  unfolding update repoll
  Blocked-repoll a r will_wake cx p [] h = tt
  Blocked-repoll a r will_wake cx p (e ∷ es) h = ground arith

  -- A new waiter at the end comes to the front of an empty queue only.
  pub Blocked-snoc :
      (a r : ℕ) (es : List (Entry ℕ W)) (e : Entry ℕ W)
      → Blocked a r es
      → (es ≡ [] → a < e.input)
      → Blocked a r (es ++ (e ∷ []))
  Blocked-snoc a r [] e h k = omega (arith, k refl)
  Blocked-snoc a r (x ∷ es) e h k = h

  abbrev pub IsFront : Ptr → List (Entry ℕ W) → Type 0
  IsFront p [] = ⊥
  IsFront p (e ∷ es) = (p == e.ptr) ≡ true

  -- A waiter behind the front that is dropped leaves the front as it is.
  pub Blocked-remove :
      (a r : ℕ) (p : Ptr) (es : List (Entry ℕ W))
      → ¬ IsFront p es
      → Blocked a r es
      → Blocked a r (remove p es)
  unfolding remove
  Blocked-remove a r p [] out h = tt
  Blocked-remove a r p (e ∷ es) out h = elim (Bool-cases (p == e.ptr)) [
    | inl here ↦ absurd (out here)
    | inr behind ↦ rw behind h
  ]
