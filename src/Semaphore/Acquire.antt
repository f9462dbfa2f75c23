-- ===== src/Semaphore/Acquire.antt =====
-- The futures `acquire` and `acquire_unfair`: each entry of their state machines keeps the accounts.
use unsync.Prelude.{
  ℕ, ◌+◌, ◌-◌, ◌≤◌, ◌<◌, ◌≡◌, ◌≢◌, refl, sym, subst, ◌∙◌, Bool, some, none, Option, [], arith, inl,
  inr, Option-cases, Poll, ready, pending,
}
use unsync.Utils.{word_mod}
use unsync.WaitList.{Ptr}
use unsync.WaitList.Spec.{Queue, remove, remove_done, start}
use unsync.WaitList.Spec
use unsync.WaitList.Spec.Cases.{poll-Polled, Polled, missing, waits, ends}
use unsync.Semaphore.{
  WakeUp, unfair_woken, fair_grant, unfair, Semaphore, try_acquire, try_acquire_unfair, contend,
  woken_unfair, resume, acquire_poll, resume_found,
}
use unsync.Semaphore.Release.{owed, Blocked, Knows, IsSettled, on_hand, release_permits-Released}
use unsync.Semaphore.Waiters.{
  remove-unfair, remove-fair, InputsOf-snoc, InputsOf-repoll, Blocked-mono, Blocked-repoll,
  Blocked-snoc,
}

-- The permits that a poll hands out.
abbrev pub handed_out : Poll ℕ → ℕ
handed_out pending = 0
handed_out (ready n) = n

module _ {W : Type 0} where
  -- A way to take permits at once: it takes what it is asked for, and refuses it to an empty queue
  -- only where there is less.
  pub record Tries (try : ℕ → Semaphore W → Option (Semaphore W)) : Type 0 where
    pub takes :
        (n : ℕ) (s t : Semaphore W)
        → try n s ≡ some t
        → (n ≤ s.permits) × (t ≡ record s { permits = s.permits - n })
    pub refuses :
        (n : ℕ) (s : Semaphore W) → try n s ≡ none → s.waiters.waiting ≡ [] → s.permits < n

  pub try_acquire_unfair-Tries : Tries try_acquire_unfair
  unfolding try_acquire_unfair
  try_acquire_unfair-Tries = record {
    takes = λ n s t h. ground arith;
    refuses = λ n s h e. ground arith;
  }

  pub try_acquire-Tries : Tries try_acquire
  unfolding try_acquire
  try_acquire-Tries = record { takes = λ n s t h. ground arith; refuses = λ n s h e. ground arith }

  -- A call returned, and what it handed out and left is related to `s`.
  abbrev pub Returns : (Poll ℕ → Semaphore W → Type 0) → Option (Poll ℕ × Semaphore W) → Type 0
  Returns P x = (r : Poll ℕ) × (t : Semaphore W) × (x ≡ some (r, t)) × P r t

  -- From `s` to `t`, while `out` permits are handed out. If `Calm`, the front is blocked after it.
  pub record Kept (Calm : Type 0) (wants : Ptr → ℕ) (out : ℕ) (s t : Semaphore W) : Type 0 where
    pub on_hand_less : on_hand t + out ≡ on_hand s
    pub total_same : t.total_permits ≡ s.total_permits
    pub knows : Knows wants t
    pub settled : Calm → IsSettled wants t

  module _ (Calm : Type 0) (wants : Ptr → ℕ) (try : ℕ → Semaphore W → Option (Semaphore W))
      (tries : Tries try) (p : Ptr) (cx : W) where
    pub contend-Kept :
        (s : Semaphore W)
        → Knows wants s
        → (Calm → IsSettled wants s)
        → let (r, t) = contend try p (wants p) cx s in Kept Calm wants (handed_out r) s t
    unfolding contend start
    contend-Kept s k b = elim (Option-cases (try (wants p) s)) [
      | inl h ↦
          rw (h, contend)
            (record {
              on_hand_less = omega arith;
              total_same = refl;
              knows = record {
                inputs = InputsOf-snoc wants s.waiters.waiting _ k.inputs refl;
                grants = k.grants;
              };
              settled = λ c.
                  Blocked-snoc s.permits _ s.waiters.waiting _ (b c) (tries.refuses (wants p) s h);
            })
      | inr (t, h) ↦
          let (enough, e) = tries.takes (wants p) s t h in
          rw (h, contend, e)
            (record {
              on_hand_less = omega arith;
              total_same = refl;
              knows = record { inputs = k.inputs; grants = k.grants };
              settled = λ c.
                  Blocked-mono s.permits (s.permits - wants p) _ _ s.waiters.waiting (b c)
                    (omega arith);
            })
    ]

    -- A future whose unfair wake has just ended, so that the front need not be blocked.
    woken_unfair-Kept :
        (s : Semaphore W)
        → Knows wants s
        → (Calm → Blocked s.permits (wants p + owed wants s.waiters.done) s.waiters.waiting)
        → s.permits < word_mod
        → Returns (λ r t. Kept Calm wants (handed_out r) s t) (woken_unfair try p (wants p) cx s)
    unfolding woken_unfair
    woken_unfair-Kept s k b small = elim (Option-cases (try_acquire_unfair (wants p) s)) [
      | inl h ↦
          let (t, run, rel) = release_permits-Released wants 0 unfair s k (omega arith) in
          let c = contend-Kept t rel.knows (λ _. rel.settled) in
          let (r, u) = contend try p (wants p) cx t in
          (
            r,
            u,
            rw (h, woken_unfair, run),
            record {
              on_hand_less = ground (arith, c.on_hand_less, rel.on_hand_same);
              total_same = c.total_same ∙ rel.total_same;
              knows = c.knows;
              settled = c.settled;
            },
          )
      | inr (t, h) ↦
          let (enough, e) = try_acquire_unfair-Tries.takes (wants p) s t h in
          (
            ready (wants p),
            t,
            rw (h, woken_unfair),
            rw e (record {
              on_hand_less = omega arith;
              total_same = refl;
              knows = record { inputs = k.inputs; grants = k.grants };
              settled = λ c.
                  Blocked-mono s.permits (s.permits - wants p) (wants p + owed wants s.waiters.done)
                    _ s.waiters.waiting (b c) (omega arith);
            }),
          )
    ]

    -- The future is found by a poll, and goes on.
    resume_found-Kept :
        (will_wake : W → W → Bool) (s : Semaphore W) {x : Option (Poll WakeUp × Queue ℕ WakeUp W)}
        → Polled will_wake p cx s.waiters x
        → x ≢ none
        → Knows wants s
        → (Calm → IsSettled wants s)
        → s.permits < word_mod
        → Returns (λ r t. Kept Calm wants (handed_out r) s t) (resume_found try p (wants p) cx s x)
    unfolding resume_found resume
    resume_found-Kept will_wake s missing here k b small = absurd (here refl)
    resume_found-Kept will_wake s waits here k b small = (
      pending,
      _,
      refl,
      record {
        on_hand_less = omega arith;
        total_same = refl;
        knows = record {
          inputs = InputsOf-repoll wants will_wake cx p s.waiters.waiting k.inputs;
          grants = k.grants;
        };
        settled = λ c. Blocked-repoll s.permits _ will_wake cx p s.waiters.waiting (b c);
      },
    )
    resume_found-Kept will_wake s (ends unfair_woken h) here k b small =
        let (g, o, k') = remove-unfair wants p s.waiters.done h k.grants in
        let (r, t, run, kept) =
          woken_unfair-Kept
            (record s { waiters = record s.waiters { done = remove_done p s.waiters.done } })
            (record { inputs = k.inputs; grants = k' }) (λ c. rw o (b c)) small in
        (
          r,
          t,
          run,
          record {
            on_hand_less = ground (arith, kept.on_hand_less, g);
            total_same = kept.total_same;
            knows = kept.knows;
            settled = kept.settled;
          },
        )
    resume_found-Kept will_wake s (ends (fair_grant n) h) here k b small =
        let (g, e, o, k') = remove-fair wants p s.waiters.done n h k.grants in
        (
          ready (wants p),
          _,
          refl,
          record {
            on_hand_less = omega (arith, g, e);
            total_same = refl;
            knows = record { inputs = k.inputs; grants = k' };
            settled = λ c. rw o (b c);
          },
        )

    -- The poll of a future that waits or was woken returns.
    pub acquire_poll-Returns :
        (will_wake : W → W → Bool) (s : Semaphore W)
        → Spec.poll will_wake p cx s.waiters ≢ none
        → Knows wants s
        → (Calm → IsSettled wants s)
        → s.permits < word_mod
        → Returns
            (λ r t. Kept Calm wants (handed_out r) s t)
            (acquire_poll will_wake try p (wants p) cx s)
    unfolding acquire_poll
    acquire_poll-Returns will_wake s =
        resume_found-Kept will_wake s (poll-Polled p s.waiters will_wake cx)

    abbrev KeptIf : Semaphore W → Option (Poll ℕ × Semaphore W) → Type 0
    KeptIf s none = Unit {0}
    KeptIf s (some (r, t)) = Kept Calm wants (handed_out r) s t

    acquire_poll-missing :
        (will_wake : W → W → Bool) (s : Semaphore W)
        → Spec.poll will_wake p cx s.waiters ≡ none
        → acquire_poll will_wake try p (wants p) cx s ≡ none
    unfolding acquire_poll
    acquire_poll-missing will_wake s e = rw e

    pub acquire_poll-Kept :
        (will_wake : W → W → Bool) (s : Semaphore W) {r : Poll ℕ} {t : Semaphore W}
        → acquire_poll will_wake try p (wants p) cx s ≡ some (r, t)
        → Knows wants s
        → (Calm → IsSettled wants s)
        → s.permits < word_mod
        → Kept Calm wants (handed_out r) s t
    acquire_poll-Kept will_wake s h k b small =
        let (r', t', run, kept) =
          acquire_poll-Returns will_wake s
            (λ e. let missed = acquire_poll-missing will_wake s e in cc) k b small in
        subst (KeptIf s) (sym run ∙ h) kept
