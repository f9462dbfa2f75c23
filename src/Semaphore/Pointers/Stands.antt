-- ===== src/Semaphore/Pointers/Stands.antt =====
-- The semaphore over the pointers does what the one over the promise does.
use unsync.Prelude.{
  ℕ, zero, suc, ◌≡◌, ◌<◌, ◌∙◌, refl, subst, Bool, true, false, Option, none, some, Option-cases,
  List, [], ◌∷◌, inl, inr, ok, Run, returns, Cmd, ◌>>=◌, and_then, length, arith,
}
use unsync.Utils.{wrapping_add}
use unsync.WaitList.{drop_borrowed, wake_one}
use unsync.WaitList.Links.{Entry}
use unsync.WaitList.Spec.{Queue}
use unsync.WaitList.Spec
use unsync.WaitList.Refine.{Refines, Owned, Refines-borrow, borrow-ok, drop_borrowed-ok}
use unsync.WaitList.Refine.Wake.{wake_one-Reaches}
use unsync.WaitList.Refine.Heads.{head_input-Reaches}
use unsync.Semaphore.{
  Semaphore, Fairness, fair, unfair, WakeUp, unfair_woken, fair_grant, checked_sub, wake_head,
  release_loop, release_permits,
}
use unsync.Semaphore.Fuel.{release_loop-enough}
use unsync.Semaphore.Pointers.{
  Cells, on_waiters, cells_loop, cells_head, cells_left, cells_release, cells_set, wake_for, woke,
}

module _ {W : Type 0} where
  -- The memory holds the semaphore.
  pub record Stands (s : Semaphore W) (m : Cells W) : Type 0 where
    pub refines : Refines s.waiters m.waiters
    pub owned : Owned s.waiters m.waiters
    pub permits : m.permits ≡ s.permits
    pub total_permits : m.total_permits ≡ s.total_permits

  -- A run that ends in a memory that holds `s`, with the list borrowed or not.
  pub record Ends {A : Type 0} (a : A) (s : Semaphore W) (b : Bool) (x : Run (Cells W) A)
      : Type 0 where
    pub after : Cells W
    pub run : x ≡ returns a after
    pub stands : Stands s after
    pub borrowed : after.waiters.borrowed ≡ b

  -- The run returns what is promised.
  abbrev pub Meets : {A : Type 0} → Option (A × Semaphore W) → Run (Cells W) A → Type 0
  Meets none x = Unit {0}
  Meets (some (a, t)) x = Ends a t false x

  wake_front-ok :
      (o : WakeUp) (es : List (Entry ℕ W)) (q : Queue ℕ WakeUp W) {wanted : ℕ}
      → Spec.head_input es ≡ some wanted
      → (Spec.wake_front es o q).0 ≡ ok wanted
  unfolding Spec.head_input Spec.wake_front
  wake_front-ok o [] q h = cc
  wake_front-ok o (e ∷ es) q h = ground (arith, h)

  wake_one-ok :
      (o : WakeUp) (q : Queue ℕ WakeUp W) {wanted : ℕ}
      → Spec.head_input q.waiting ≡ some wanted
      → (Spec.wake_one o q).0 ≡ ok wanted
  unfolding Spec.wake_one
  wake_one-ok o q h = wake_front-ok o q.waiting q h

  abbrev pub EndsIf : Option (Semaphore W) → Bool → Run (Cells W) (Unit {0}) → Type 0
  EndsIf none b x = Unit {0}
  EndsIf (some s) b x = Ends tt s b x

  EndsIf-borrowed :
      (x : Option (Semaphore W)) (r : Run (Cells W) (Unit {0})) {b b' : Bool}
      → b ≡ b'
      → EndsIf x b r
      → EndsIf x b' r
  EndsIf-borrowed x r e t = subst (λ b. EndsIf x b r) e t

  -- A round that wakes the waiter at the head.
  round-Ends :
      (fairness : Fairness) (new_permits wanted : ℕ) (s : Semaphore W) (m : Cells W)
      (rest : Cmd (Cells W) (Unit {0})) (x : Option (Semaphore W))
      → Spec.head_input s.waiters.waiting ≡ some wanted
      → Stands s m
      → ((m' : Cells W)
          → Stands (wake_head fairness new_permits wanted s) m'
          → m'.waiters.borrowed ≡ m.waiters.borrowed
          → EndsIf x m.waiters.borrowed (rest m'))
      → EndsIf x m.waiters.borrowed (
          (wake_for fairness new_permits wanted >>= λ wake.
          on_waiters (wake_one wake) >>= woke rest)
            m)
  unfolding wake_for wake_head woke
  round-Ends fair new_permits wanted s m rest x h v next =
      let woken = wake_one-Reaches (fair_grant wanted) s.waiters m.waiters v.refines v.owned in
      rw (woken.run, wake_one-ok (fair_grant wanted) s.waiters h)
        (next
          (record { waiters = woken.after; permits = new_permits; total_permits = m.total_permits })
          (record {
            refines = woken.refines;
            owned = woken.owned;
            permits = refl;
            total_permits = v.total_permits;
          })
          woken.borrowed)
  round-Ends unfair new_permits wanted s m rest x h v next =
      let woken = wake_one-Reaches unfair_woken s.waiters m.waiters v.refines v.owned in
      rw (woken.run, wake_one-ok unfair_woken s.waiters h)
        (next (record m { waiters = woken.after })
          (record {
            refines = woken.refines;
            owned = woken.owned;
            permits = v.permits;
            total_permits = v.total_permits;
          })
          woken.borrowed)

  cells_loop-Ends :
      (f : ℕ) (fairness : Fairness) (permits : ℕ) (s : Semaphore W) (m : Cells W)
      → Stands s m
      → EndsIf
          (release_loop f fairness permits s)
          m.waiters.borrowed
          (cells_loop f fairness permits m)
  unfolding release_loop cells_loop cells_head cells_left
  cells_loop-Ends zero fairness permits s m v = tt
  cells_loop-Ends (suc f) fairness permits s m v =
      let looked = head_input-Reaches s.waiters m.waiters v.refines v.owned in
      let m' : Cells W = record m { waiters = looked.after } in
      let v' : Stands s m' = record {
        refines = looked.refines;
        owned = looked.owned;
        permits = v.permits;
        total_permits = v.total_permits;
      } in
      elim (Option-cases (Spec.head_input s.waiters.waiting)) [
        | inl e ↦
            rw (looked.run, release_loop, e)
              (record { after = m'; run = refl; stands = v'; borrowed = looked.borrowed })
        | inr (wanted, e) ↦ elim (Option-cases (checked_sub permits wanted)) [
          | inl few ↦
              rw (looked.run, release_loop, e)
                (rw few
                  (record { after = m'; run = refl; stands = v'; borrowed = looked.borrowed }))
          | inr (new_permits, enough) ↦
              let next =
                release_loop f fairness new_permits (wake_head fairness new_permits wanted s) in
              rw (looked.run, release_loop, e)
                (rw enough (
                  EndsIf-borrowed next
                    (cells_left (cells_loop f fairness) fairness wanted (some new_permits) m')
                    looked.borrowed
                    (round-Ends fairness new_permits wanted s m' (cells_loop f fairness new_permits)
                      next e v'
                      (λ m'' v'' b. EndsIf-borrowed next (cells_loop f fairness new_permits m'') b (
                        cells_loop-Ends f fairness new_permits
                          (wake_head fairness new_permits wanted s) m'' v'')))))
        ]
      ]

  freed-EndsIf :
      (x : Option (Semaphore W)) (r : Run (Cells W) (Unit {0}))
      → EndsIf x true r
      → EndsIf x false (and_then r (λ u. on_waiters drop_borrowed))
  freed-EndsIf none r k = tt
  freed-EndsIf (some s) r k =
      rw (k.run, drop_borrowed-ok k.after.waiters k.borrowed)
        (record {
          after = record (k.after) { waiters = record (k.after.waiters) { borrowed = false } };
          run = refl;
          stands = record {
            refines = Refines-borrow false k.stands.refines;
            owned = k.stands.owned;
            permits = k.stands.permits;
            total_permits = k.stands.total_permits;
          };
          borrowed = refl;
        })

  cells_release-EndsIf :
      (f n : ℕ) (fairness : Fairness) (s : Semaphore W) (m : Cells W)
      → Stands s m
      → m.waiters.borrowed ≡ false
      → let permits = wrapping_add s.permits n in
        EndsIf
          (release_loop f fairness permits (record s { permits = permits }))
          false
          (cells_release f n fairness m)
  unfolding cells_release cells_set
  cells_release-EndsIf f n fairness s m v idle =
      let permits = wrapping_add s.permits n in
      rw (borrow-ok m.waiters idle, v.permits)
        (freed-EndsIf (release_loop f fairness permits (record s { permits = permits })) _ (
          cells_loop-Ends f fairness permits (record s { permits = permits })
            (record m { waiters = record (m.waiters) { borrowed = true }; permits = permits })
            (record {
              refines = Refines-borrow true v.refines;
              owned = v.owned;
              permits = refl;
              total_permits = v.total_permits;
            })))

  -- On more fuel than there are waiters `release_permits` does what it does over the promise of the
  -- wait list, which is borrowed while it runs.
  pub cells_release-Ends :
      (f n : ℕ) (fairness : Fairness) (s : Semaphore W) (m : Cells W) {t : Semaphore W}
      → length s.waiters.waiting < f
      → release_permits n fairness s ≡ some t
      → Stands s m
      → m.waiters.borrowed ≡ false
      → Ends tt t false (cells_release f n fairness m)
  unfolding release_permits
  cells_release-Ends f n fairness s m h e v idle =
      let permits = wrapping_add s.permits n in
      subst (λ x. EndsIf x false (cells_release f n fairness m))
        (release_loop-enough f (suc (length s.waiters.waiting)) fairness permits
            (record s { permits = permits }) s.waiters.waiting refl h (omega arith)
          ∙ e)
        (cells_release-EndsIf f n fairness s m v idle)
