-- ===== src/OnceCell/Pointers/Calls/Runs.antt =====
-- The cell over the memory keeps every promise, over any calls.
use unsync.Prelude.{
  ℕ, suc, ◌+◌, ◌<◌, ◌≤◌, ◌≡◌, refl, ap, subst, Bool, false, ◌||◌, Option, none, some, List, arith,
  inl, inr, Bool-cases, Run, returns, and_then, is_some, length,
}
use unsync.WaitList.{Ptr}
use unsync.WaitList.Links.{has}
use unsync.WaitList.Spec.{find_done, empty}
use unsync.Prelude.Histories.{reply, calls, promises, Lands, calls-Lands}
use unsync.WaitList.Calls.Total.{new-Refines, new-Owned, new-idle}
use unsync.OnceCell.{OnceCell, new, get, init_poll, init_fails, init_drop}
use unsync.OnceCell.System.Runs.{init_succeeds-clears}
use unsync.OnceCell.Waiting.{
  waiters, AtMost, AtMostIf, set-eq, start-le, poll-AtMost, drop_baton-le, drop-AtMostIf,
}
use unsync.OnceCell.Pointers.{
  Cells, cells_new, cells_get, cells_set, cells_start, cells_poll, cells_succeeds, cells_fails,
  cells_drop,
}
use unsync.OnceCell.Pointers.Stands.{Stands, Ends, Meets, set-Ends, baton-Ends}
use unsync.OnceCell.Pointers.Polls.{EndsIf, start-Ends, poll-Meets, drop-EndsIf}
use unsync.OnceCell.Pointers.Ended.{succeeds-Ends}
use unsync.OnceCell.Pointers.Calls.{
  Call, gets, sets, starts, polls, succeeds, fails, drops, Reply, tried, went, ended, done,
  done_after, call, promised,
}

module _ {T W : Type 0} where
  pub Ends-map :
      {A B : Type 0} (g : A → B) {a : A} {t : OnceCell T W} {b : Bool} (x : Run (Cells T W) A)
      → Ends a t b x
      → Ends (g a) t b (and_then x λ r s. returns (g r) s)
  Ends-map g x k = record {
    after = k.after;
    run = rw k.run;
    stands = k.stands;
    borrowed = k.borrowed;
  }

  reply-Meets :
      {A B : Type 0} (g : A → B) (o : Option (A × OnceCell T W)) (x : Run (Cells T W) A)
      → Meets o x
      → Meets (reply g o) (and_then x λ r s. returns (g r) s)
  reply-Meets g none x k = tt
  reply-Meets g (some (a, t)) x k = Ends-map g x k

  done-Meets :
      (o : Option (OnceCell T W)) (x : Run (Cells T W) (Unit {0}))
      → EndsIf o x
      → Meets (done_after o) (and_then x λ _ s. returns done s)
  done-Meets none x k = tt
  done-Meets (some t) x k = Ends-map (λ _. done) x k

  module _ (will_wake : W → W → Bool) where
    module _ (f : ℕ) (c : OnceCell T W) (m : Cells T W) (enough : waiters c < f) (v : Stands c m)
        (idle : m.waiters.borrowed ≡ false) where
      starts-Meets :
          (p : Ptr) (cx : W)
          → Meets (promised will_wake (starts p cx) c) (call will_wake f (starts p cx) m)
      unfolding promised call
      starts-Meets p cx =
          elim (Bool-cases (has p c.waiters.waiting || is_some (find_done p c.waiters.done))) [
            | inl there ↦ rw there tt
            | inr fresh ↦
                let out : has p c.waiters.waiting ≡ false = ground arith in
                let unused : find_done p c.waiters.done ≡ none = ground arith in
                rw fresh (
                  Ends-map went (cells_start will_wake p cx m)
                    (start-Ends will_wake p cx c m out unused v idle))
          ]

      call-Meets : (d : Call T W) → Meets (promised will_wake d c) (call will_wake f d m)
      unfolding promised call cells_get get cells_fails init_fails
      call-Meets gets = record { after = m; run = rw v.state; stands = v; borrowed = idle }
      call-Meets (sets value) = Ends-map tried (cells_set value m) (set-Ends value c m v idle)
      call-Meets (starts p cx) = starts-Meets p cx
      call-Meets (polls p cx) =
          reply-Meets went (init_poll will_wake p cx c) (cells_poll will_wake p cx m)
            (poll-Meets will_wake p cx c m v idle)
      call-Meets (succeeds value) =
          let (t, ran, there, nobody, k) = succeeds-Ends f value c m enough v idle in
          rw (ran, there) (Ends-map ended (cells_succeeds f value m) k)
      call-Meets fails = Ends-map (λ _. done) (cells_fails m) (baton-Ends c m v idle)
      call-Meets (drops p) = done-Meets (init_drop p c) (cells_drop p m) (drop-EndsIf p c m v idle)

    reply-AtMost :
        {A B : Type 0} (g : A → B) (b : ℕ) (o : Option (A × OnceCell T W))
        → AtMost b o
        → AtMost (suc b) (reply g o)
    reply-AtMost g b none h = tt
    reply-AtMost g b (some (a, t)) h = omega arith

    done-AtMost : (b : ℕ) (o : Option (OnceCell T W)) → AtMostIf b o → AtMost (suc b) (done_after o)
    done-AtMost b none h = tt
    done-AtMost b (some t) h = omega arith

    -- With a call at most one more future waits.
    promised-AtMost :
        (d : Call T W) (c : OnceCell T W) → AtMost (suc (waiters c)) (promised will_wake d c)
    unfolding promised init_fails
    promised-AtMost gets c = omega arith
    promised-AtMost (sets value) c = omega (arith, set-eq value c)
    promised-AtMost (starts p cx) c =
        elim (Bool-cases (has p c.waiters.waiting || is_some (find_done p c.waiters.done))) [
          | inl there ↦ rw there tt
          | inr fresh ↦ rw fresh (start-le p cx c)
        ]
    promised-AtMost (polls p cx) c =
        reply-AtMost went (waiters c) (init_poll will_wake p cx c) (poll-AtMost will_wake p cx c)
    promised-AtMost (succeeds value) c =
        let (t, ran, there, nobody) = init_succeeds-clears value c in
        rw (ran, there) (omega (arith, ap length nobody))
    promised-AtMost fails c = omega (arith, drop_baton-le c)
    promised-AtMost (drops p) c = done-AtMost (waiters c) (init_drop p c) (drop-AtMostIf p c)

    -- There is fuel for the waiters that there are and those that may come.
    abbrev pub Holds : ℕ → ℕ → OnceCell T W → Cells T W → Type 0
    Holds f k c m = (waiters c + k ≤ f) × Stands c m × (m.waiters.borrowed ≡ false)

    Meets-Lands :
        {A : Type 0} (f k b : ℕ) (o : Option (A × OnceCell T W)) (x : Run (Cells T W) A)
        → b + k ≤ f
        → AtMost b o
        → Meets o x
        → Lands (Holds f) k o x
    Meets-Lands f k b none x h l m = tt
    Meets-Lands f k b (some (a, t)) x h l m = (m.after, m.run, (omega arith, m.stands, m.borrowed))

    pub call-Lands :
        (f k : ℕ) (d : Call T W) (c : OnceCell T W) (m : Cells T W)
        → Holds f (suc k) c m
        → Lands (Holds f) k (promised will_wake d c) (call will_wake f d m)
    call-Lands f k d c m (h, v, idle) =
        Meets-Lands f k (suc (waiters c)) (promised will_wake d c) (call will_wake f d m)
          (omega arith) (promised-AtMost d c) (call-Meets f c m (omega arith) v idle d)

    pub new-Stands : Stands {T = T} {W = W} new cells_new
    unfolding new cells_new empty
    new-Stands = record {
      refines = new-Refines will_wake;
      owned = new-Owned will_wake;
      state = refl;
    }

    -- From `OnceCell::new` on, whatever calls are made in whatever order, if each of them can be made
    -- at all and none is a poll that comes to the `unreachable!()`, the code over the memory of the wait list returns from each what it returns over the
    -- queue of the promise, on as much fuel for each call as there are calls; and it ends with the
    -- list not borrowed, in a memory that holds the cell with that queue. So there is no panic, no
    -- abort, no access to memory that is gone, no read of the wrong member of a union, and no second
    -- borrow of the list, although batons are dropped while it is borrowed.
    pub cell_calls-Ends :
        (ds : List (Call T W)) {rs : List (Reply T)} {t : OnceCell T W}
        → promises (promised will_wake) ds new ≡ some (rs, t)
        → Ends rs t false (calls (call will_wake (length ds)) ds cells_new)
    unfolding new cells_new empty
    cell_calls-Ends ds e =
        let f = length ds in
        let all =
          calls-Lands (Holds f) (call will_wake f) (promised will_wake) (call-Lands f) ds new
            cells_new (omega arith, new-Stands, new-idle (Unit {0}) (Unit {0}) W) in
        let (m, run, h) =
          subst (λ x. Lands (Holds f) 0 x (calls (call will_wake f) ds cells_new)) e all in
        record { after = m; run = run; stands = h.1; borrowed = h.2 }
