-- ===== src/Semaphore/Release.antt =====
-- `release_permits`: it ends, keeps the count of the permits, and leaves nobody at the front of the
-- queue whose wants are met, unless a wake is on its way.
use unsync.Prelude.{
  ℕ, zero, suc, ◌+◌, ◌-◌, ◌%◌, ◌≤◌, ◌<◌, ◌≡◌, refl, some, List, [], ◌∷◌, arith, inl, inr,
  Bool-cases, length, ltb,
}
use unsync.Utils.{word_mod}
use unsync.WaitList.{Ptr}
use unsync.WaitList.Links.{Entry}
use unsync.Semaphore.{
  Fairness, fair, unfair, WakeUp, unfair_woken, fair_grant, Semaphore, release_loop,
  release_permits,
}
use unsync.Utils.{wrapping_add}

-- The permits in grants that have been handed to woken futures.
abbrev pub granted : List (Ptr × WakeUp) → ℕ
granted [] = 0
granted ((p, unfair_woken) ∷ ds) = granted ds
granted ((p, fair_grant g) ∷ ds) = g + granted ds

-- What the futures want that an unfair wake is on its way to.
abbrev pub owed : (Ptr → ℕ) → List (Ptr × WakeUp) → ℕ
owed wants [] = 0
owed wants ((p, unfair_woken) ∷ ds) = wants p + owed wants ds
owed wants ((p, fair_grant g) ∷ ds) = owed wants ds

-- A grant is of what its future wants.
abbrev pub GrantsOf : (Ptr → ℕ) → List (Ptr × WakeUp) → Type 0
GrantsOf wants [] = Unit {0}
GrantsOf wants ((p, unfair_woken) ∷ ds) = GrantsOf wants ds
GrantsOf wants ((p, fair_grant g) ∷ ds) = (g ≡ wants p) × GrantsOf wants ds

module _ {W : Type 0} where
  -- A waiter's input is what its future wants.
  abbrev pub InputsOf : (Ptr → ℕ) → List (Entry ℕ W) → Type 0
  InputsOf wants [] = Unit {0}
  InputsOf wants (e ∷ es) = (e.input ≡ wants e.ptr) × InputsOf wants es

  -- The first waiter wants more than is there, if what the woken ones want is left out of it.
  abbrev pub Blocked : ℕ → ℕ → List (Entry ℕ W) → Type 0
  Blocked permits reserved [] = Unit {0}
  Blocked permits reserved (e ∷ es) = permits < e.input + reserved

  pub record Knows (wants : Ptr → ℕ) (s : Semaphore W) : Type 0 where
    pub inputs : InputsOf wants s.waiters.waiting
    pub grants : GrantsOf wants s.waiters.done

  abbrev pub IsSettled : (Ptr → ℕ) → Semaphore W → Type 0
  IsSettled wants s = Blocked s.permits (owed wants s.waiters.done) s.waiters.waiting

  -- The permits that are available or in a grant.
  abbrev pub on_hand : Semaphore W → ℕ
  on_hand s = s.permits + granted s.waiters.done

  -- What a release leaves behind, from `s` to `t`.
  pub record Released (wants : Ptr → ℕ) (s t : Semaphore W) : Type 0 where
    pub on_hand_same : on_hand t ≡ on_hand s
    pub total_same : t.total_permits ≡ s.total_permits
    pub knows : Knows wants t
    pub settled : IsSettled wants t

  -- The loop's variable `permits`, against the field.
  abbrev Lead : (Ptr → ℕ) → Fairness → ℕ → Semaphore W → Type 0
  Lead wants fair permits s = permits ≡ s.permits
  Lead wants unfair permits s = s.permits ≤ permits + owed wants s.waiters.done

  unfoldable pub sem : List (Entry ℕ W) → List (Ptr × WakeUp) → List W → ℕ → ℕ → Semaphore W
  sem es ds woken permits total = record {
    waiters = record { waiting = es; done = ds; woken = woken };
    permits = permits;
    total_permits = total;
  }

  module _ (wants : Ptr → ℕ) where
    Lead-Blocked :
        (fairness : Fairness) (permits : ℕ) (s : Semaphore W) (e : Entry ℕ W)
        (es : List (Entry ℕ W))
        → Lead wants fairness permits s
        → permits < e.input
        → Blocked s.permits (owed wants s.waiters.done) (e ∷ es)
    Lead-Blocked fair permits s e es l h = omega arith
    Lead-Blocked unfair permits s e es l h = omega arith

    release_loop-Released :
        (f : ℕ) (fairness : Fairness) (es : List (Entry ℕ W)) (ds : List (Ptr × WakeUp))
        (woken : List W) (avail total permits : ℕ)
        → length es < f
        → Knows wants (sem es ds woken avail total)
        → Lead wants fairness permits (sem es ds woken avail total)
        → (t : Semaphore W) × (release_loop f fairness permits (sem es ds woken avail total)
            ≡ some t)
          × Released wants (sem es ds woken avail total) t
    unfolding release_loop sem
    release_loop-Released zero fairness es ds woken avail total permits h k l = absurd (omega arith)
    release_loop-Released (suc f) fairness [] ds woken avail total permits h k l = (
      sem [] ds woken avail total,
      refl,
      record { on_hand_same = refl; total_same = refl; knows = k; settled = tt },
    )
    release_loop-Released (suc f) fair (e ∷ es) ds woken avail total permits h k l =
        elim (Bool-cases (ltb permits e.input)) [
          | inl less ↦ (
            sem (e ∷ es) ds woken avail total,
            rw (less, release_loop),
            record {
              on_hand_same = refl;
              total_same = refl;
              knows = k;
              settled =
                  Lead-Blocked fair permits (sem (e ∷ es) ds woken avail total) e es l
                    (ground arith);
            },
          )
          | inr enough ↦
              let (t, run, r) =
                release_loop-Released f fair es ((e.ptr, fair_grant e.input) ∷ ds) (e.waker ∷ woken)
                  (permits - e.input) total (permits - e.input) (omega arith)
                  (record { inputs = k.inputs.1; grants = (k.inputs.0, k.grants) }) refl in
              (
                t,
                rw (enough, release_loop) run,
                record {
                  on_hand_same = ground (arith, r.on_hand_same);
                  total_same = r.total_same;
                  knows = r.knows;
                  settled = r.settled;
                },
              )
        ]
    release_loop-Released (suc f) unfair (e ∷ es) ds woken avail total permits h k l =
        elim (Bool-cases (ltb permits e.input)) [
          | inl less ↦ (
            sem (e ∷ es) ds woken avail total,
            rw (less, release_loop),
            record {
              on_hand_same = refl;
              total_same = refl;
              knows = k;
              settled =
                  Lead-Blocked unfair permits (sem (e ∷ es) ds woken avail total) e es l
                    (ground arith);
            },
          )
          | inr enough ↦
              let (t, run, r) =
                release_loop-Released f unfair es ((e.ptr, unfair_woken) ∷ ds) (e.waker ∷ woken)
                  avail total (permits - e.input) (omega arith)
                  (record { inputs = k.inputs.1; grants = k.grants }) (omega (arith, k.inputs.0)) in
              (
                t,
                rw (enough, release_loop) run,
                record {
                  on_hand_same = ground (arith, r.on_hand_same);
                  total_same = r.total_same;
                  knows = r.knows;
                  settled = r.settled;
                },
              )
        ]

    Lead-start :
        (fairness : Fairness) (permits : ℕ) (s : Semaphore W)
        → permits ≡ s.permits
        → Lead wants fairness permits s
    Lead-start fair permits s h = h
    Lead-start unfair permits s h = omega arith

    -- With no overflow, and where waiters and grants are for what their futures want,
    -- `release_permits` returns: the permits that are available or granted grow by what is released,
    -- the total stays, and the front waits for more than is available, less what the futures want
    -- that an unfair wake is on its way to.
    pub release_permits-Released :
        (n : ℕ) (fairness : Fairness) (s : Semaphore W)
        → Knows wants s
        → s.permits + n < word_mod
        → (t : Semaphore W) × (release_permits n fairness s ≡ some t)
          × Released wants (record s { permits = s.permits + n }) t
    unfolding release_permits wrapping_add sem
    release_permits-Released n fairness s k h =
        let all = s.permits + n in
        let same : all % word_mod ≡ all = omega arith in
        let (t, run, r) =
          release_loop-Released (suc (length s.waiters.waiting)) fairness s.waiters.waiting
            s.waiters.done s.waiters.woken all s.total_permits all (omega arith)
            (record { inputs = k.inputs; grants = k.grants })
            (Lead-start fairness all (record s { permits = all }) refl) in
        (
          t,
          rw same run,
          record {
            on_hand_same = r.on_hand_same;
            total_same = r.total_same;
            knows = r.knows;
            settled = r.settled;
          },
        )
