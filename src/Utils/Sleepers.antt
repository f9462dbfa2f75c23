-- ===== src/Utils/Sleepers.antt =====
-- Tasks that sleep: those whose last poll was pending, until a waker of theirs is woken.
--
-- A waker wakes a task, known by its number. What a lost wake would be can be said with this: a
-- task that sleeps while there is something for it to do.
use unsync.Prelude.{
  ℕ, ◌≡◌, refl, ap, Bool, true, false, Option, none, some, List, [], ◌∷◌, ◌++◌, ◌∙◌, arith, inl,
  inr, Bool-cases, ◌==◌, if◌then◌else◌, ◌&&◌, is_some,
}
use unsync.Utils.Wakers.{register, register-task, wake}

module _ {W : Type 0} (task : W → ℕ) where
  abbrev pub rouse : Option ℕ → W → Option ℕ
  rouse none w = none
  rouse (some t) w = if task w == t then none else some t

  -- Who sleeps after all of `ws` were woken.
  abbrev pub sleeping : Option ℕ → List W → Option ℕ
  sleeping o [] = o
  sleeping o (w ∷ ws) = sleeping (rouse o w) ws

  -- If somebody sleeps, then `P`, and the slot holds a waker of the task that sleeps.
  pub data SleepsOnlyIf (P : Type 0) (slot : Option W) : Option ℕ → Type 0 where
    nobody : SleepsOnlyIf P slot none
    sleeper : {t : ℕ} (w : W) → P → slot ≡ some w → task w ≡ t → SleepsOnlyIf P slot (some t)

  pub sleeping-none : (ws : List W) → sleeping none ws ≡ none
  sleeping-none [] = refl
  sleeping-none (w ∷ ws) = sleeping-none ws

  sleeping-append :
      (o : Option ℕ) (xs ys : List W) → sleeping o (xs ++ ys) ≡ sleeping (sleeping o xs) ys
  sleeping-append o [] ys = refl
  sleeping-append o (x ∷ xs) ys = sleeping-append (rouse o x) xs ys

  module _ {P : Type 0} {slot : Option W} where
    SleepsOnlyIf-rouse :
        (o : Option ℕ) (v : W) → SleepsOnlyIf P slot o → SleepsOnlyIf P slot (rouse o v)
    SleepsOnlyIf-rouse none v nobody = nobody
    SleepsOnlyIf-rouse (some t) v (sleeper w p e h) = elim (Bool-cases (task v == t)) [
      | inl here ↦ rw here nobody
      | inr other ↦ rw other (sleeper w p e h)
    ]

    pub SleepsOnlyIf-sleeping :
        (o : Option ℕ) (ws : List W) → SleepsOnlyIf P slot o → SleepsOnlyIf P slot (sleeping o ws)
    SleepsOnlyIf-sleeping o [] a = a
    SleepsOnlyIf-sleeping o (w ∷ ws) a =
        SleepsOnlyIf-sleeping (rouse o w) ws (SleepsOnlyIf-rouse o w a)

    pub SleepsOnlyIf-map :
        {Q : Type 0} {o : Option ℕ} → (P → Q) → SleepsOnlyIf P slot o → SleepsOnlyIf Q slot o
    SleepsOnlyIf-map f nobody = nobody
    SleepsOnlyIf-map f (sleeper w p e h) = sleeper w (f p) e h

    pub SleepsOnlyIf-never : {o : Option ℕ} → ¬ P → SleepsOnlyIf P slot o → o ≡ none
    SleepsOnlyIf-never f nobody = refl
    SleepsOnlyIf-never f (sleeper w p e h) = absurd (f p)

    pub SleepsOnlyIf-why : {o : Option ℕ} {t : ℕ} → SleepsOnlyIf P slot o → o ≡ some t → P
    SleepsOnlyIf-why nobody e = cc
    SleepsOnlyIf-why (sleeper w p e h) e' = p

    -- To wake what the slot holds wakes the one that sleeps.
    pub sleeping-wake : {o : Option ℕ} → SleepsOnlyIf P slot o → sleeping o (wake slot []) ≡ none
    unfolding wake
    sleeping-wake nobody = sleeping-none (wake slot [])
    sleeping-wake {o = some t} (sleeper w p e h) =
        let self : (t == t) ≡ true = ground arith in simp (e, h, self)

  sleeping-wake-more :
      {P : Type 0} {slot : Option W} {o : Option ℕ} (ws : List W)
      → SleepsOnlyIf P slot o
      → sleeping o (wake slot ws) ≡ none
  unfolding wake
  sleeping-wake-more {slot} ws nobody = sleeping-none (wake slot ws)
  sleeping-wake-more {o = some t} ws (sleeper w p e h) =
      let woken : rouse (some t) w ≡ none = ground arith in
      rw e (ap (λ o. sleeping o ws) woken ∙ sleeping-none ws)

  -- Nor does it matter who is woken before and after.
  pub sleeping-heard :
      {P : Type 0} {slot : Option W} {o : Option ℕ} (xs ws : List W)
      → SleepsOnlyIf P slot o
      → sleeping o (xs ++ wake slot ws) ≡ none
  sleeping-heard {o} xs ws a =
      sleeping-append o xs _ ∙ sleeping-wake-more ws (SleepsOnlyIf-sleeping o xs a)

  pub SleepsOnlyIf-apart :
      {P Q : Type 0} {a b : Option W} {o r : Option ℕ}
      → ¬ (P × Q)
      → SleepsOnlyIf P a o
      → SleepsOnlyIf Q b r
      → (is_some o && is_some r) ≡ false
  SleepsOnlyIf-apart f nobody y = refl
  SleepsOnlyIf-apart f (sleeper w p e h) nobody = refl
  SleepsOnlyIf-apart f (sleeper w p e h) (sleeper v q e' h') = absurd (f (p, q))

  -- A task that registers and then sleeps.
  pub register-SleepsOnlyIf :
      {P : Type 0} (will_wake : W → W → Bool)
      → ((v w : W) → will_wake v w ≡ true → task v ≡ task w)
      → (slot : Option W) (cx : W) → P
      → SleepsOnlyIf P (register will_wake slot cx) (some (task cx))
  register-SleepsOnlyIf will_wake sound slot cx p =
      let (w, e, h) = register-task task will_wake sound slot cx in sleeper w p e h
