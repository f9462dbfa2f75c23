-- ===== src/Semaphore/Pointers/Calls/Single.antt =====
-- One call of a semaphore over the memory, from where the memory holds the semaphore.
use unsync.Prelude.{
  ℕ, ◌<◌, ◌≡◌, refl, ap, Bool, true, false, ◌||◌, Option, none, some, arith, inl, inr, Bool-cases,
  Option-cases, Run, returns, and_then, is_some,
}
use unsync.Utils.{wrapping_sub}
use unsync.WaitList.{Ptr}
use unsync.WaitList.Links.{has}
use unsync.WaitList.Spec.{find_done}
use unsync.Prelude.Histories.{reply}
use unsync.Semaphore.{
  Semaphore, Fairness, checked_add, add_permits_with, release_permits, leak, acquire_poll,
  acquire_drop,
}
use unsync.Semaphore.System.{try_of}
use unsync.Semaphore.Waiting.{waiters}
use unsync.Semaphore.Pointers.{
  Cells, cells_add, cells_contend, cells_poll, cells_drop, cells_give_back, cells_leak,
  cells_release, available_permits, total_permits,
}
use unsync.Semaphore.Pointers.Stands.{Stands, Ends, EndsIf, Meets}
use unsync.Semaphore.Pointers.Acquires.{
  Tries, try-Tries, try_unfair-Tries, release-EndsIf, acquire_drop-EndsIf,
}
use unsync.Semaphore.Pointers.Polls.{contend-Ends, acquire_poll-Meets}
use unsync.Semaphore.Pointers.Calls.{
  Call, adds, tries, first_poll, later_poll, cancel, gives_back, leaks, counts, done, tried, polled,
  cells_try_of, done_after, tried_after, call, promised,
}

module _ {W : Type 0} where
  Ends-map :
      {A B : Type 0} (g : A → B) {a : A} {t : Semaphore W} {b : Bool} (x : Run (Cells W) A)
      → Ends a t b x
      → Ends (g a) t b (and_then x λ r s. returns (g r) s)
  Ends-map g x k = record {
    after = k.after;
    run = rw k.run;
    stands = k.stands;
    borrowed = k.borrowed;
  }

  reply-Meets :
      {A B : Type 0} (g : A → B) (o : Option (A × Semaphore W)) (x : Run (Cells W) A)
      → Meets o x
      → Meets (reply g o) (and_then x λ r s. returns (g r) s)
  reply-Meets g none x k = tt
  reply-Meets g (some (a, t)) x k = Ends-map g x k

  done-Meets :
      (o : Option (Semaphore W)) (x : Run (Cells W) (Unit {0}))
      → EndsIf o false x
      → Meets (done_after o) (and_then x λ _ s. returns done s)
  done-Meets none x k = tt
  done-Meets (some t) x k = Ends-map (λ _. done) x k

  try_of-Tries : (steal : Bool) → Tries {W = W} (try_of steal) (cells_try_of steal)
  try_of-Tries true = try_unfair-Tries
  try_of-Tries false = try-Tries

  module _ (f : ℕ) (s : Semaphore W) (m : Cells W) (enough : waiters s < f) (v : Stands s m)
      (idle : m.waiters.borrowed ≡ false) where
    tries-Meets :
        (steal : Bool) (n : ℕ)
        → Meets
            (tried_after s (try_of steal n s))
            (and_then (cells_try_of steal n m) λ took t. returns (tried took) t)
    tries-Meets steal n =
        let took = try_of-Tries steal n s m v idle in
        elim (Option-cases (try_of steal n s)) [
          | inl e ↦
              let k : Ends false s false (cells_try_of steal n m) = rw e at took in
              rw e (Ends-map tried (cells_try_of steal n m) k)
          | inr (t, e) ↦
              let k : Ends true t false (cells_try_of steal n m) = rw e at took in
              rw e (Ends-map tried (cells_try_of steal n m) k)
        ]

    adds-EndsIf :
        (fairness : Fairness) (n : ℕ)
        → EndsIf (add_permits_with fairness n s) false (cells_add f fairness n m)
    unfolding add_permits_with cells_add
    adds-EndsIf fairness n = elim (Option-cases (checked_add s.total_permits n)) [
      | inl over ↦ rw (add_permits_with, over) tt
      | inr (total, fits) ↦
          rw (add_permits_with, v.total_permits, fits)
            (release-EndsIf f n fairness (record s { total_permits = total })
              (record m { total_permits = total }) enough
              (record {
                refines = v.refines;
                owned = v.owned;
                permits = v.permits;
                total_permits = refl;
              })
              idle)
    ]

    module _ (will_wake : W → W → Bool) where
      first_poll-Meets :
          (steal : Bool) (p : Ptr) (n : ℕ) (cx : W)
          → Meets
              (promised will_wake (first_poll steal p n cx) s)
              (call will_wake f (first_poll steal p n cx) m)
      unfolding promised call
      first_poll-Meets steal p n cx =
          elim (Bool-cases (has p s.waiters.waiting || is_some (find_done p s.waiters.done))) [
            | inl there ↦ rw there tt
            | inr fresh ↦
                let out : has p s.waiters.waiting ≡ false = ground arith in
                let unused : find_done p s.waiters.done ≡ none = ground arith in
                let k =
                  contend-Ends p will_wake (try_of steal) (cells_try_of steal) (try_of-Tries steal)
                    n cx s m (out, unused) v idle in
                rw fresh (Ends-map polled (cells_contend will_wake (cells_try_of steal) p n cx m) k)
          ]

      pub call-Meets : (c : Call W) → Meets (promised will_wake c s) (call will_wake f c m)
      unfolding promised call cells_give_back leak cells_leak available_permits total_permits
      call-Meets (adds fairness n) =
          done-Meets (add_permits_with fairness n s) (cells_add f fairness n m)
            (adds-EndsIf fairness n)
      call-Meets (tries steal n) = tries-Meets steal n
      call-Meets (first_poll steal p n cx) = first_poll-Meets steal p n cx
      call-Meets (later_poll steal p n cx) =
          reply-Meets polled (acquire_poll will_wake (try_of steal) p n cx s)
            (cells_poll will_wake f (cells_try_of steal) p n cx m)
            (acquire_poll-Meets p will_wake (try_of steal) (cells_try_of steal) (try_of-Tries steal)
              n cx f s m enough v idle)
      call-Meets (cancel p) =
          done-Meets (acquire_drop p s) (cells_drop f p m)
            (acquire_drop-EndsIf f p s m enough v idle)
      call-Meets (gives_back fairness n) =
          done-Meets (release_permits n fairness s) (cells_release f n fairness m)
            (release-EndsIf f n fairness s m enough v idle)
      call-Meets (leaks n) = record {
        after = record m { total_permits = wrapping_sub m.total_permits n };
        run = refl;
        stands = record {
          refines = v.refines;
          owned = v.owned;
          permits = v.permits;
          total_permits = ap (λ total. wrapping_sub total n) v.total_permits;
        };
        borrowed = idle;
      }
      call-Meets counts = record {
        after = m;
        run = rw (v.permits, v.total_permits);
        stands = v;
        borrowed = idle;
      }
