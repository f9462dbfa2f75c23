-- ===== src/WaitList/Calls/Total.antt =====
-- The code keeps every promise of the wait list, over any calls.
use unsync.Prelude.{
  ℕ, suc, ◌≡◌, refl, subst, Bool, true, false, ◌||◌, none, some, List, arith, inl, inr, Bool-cases,
  Option, is_some,
}
use unsync.WaitList.{
  Ptr, World, Run, returns, and_then, Cmd, ◌>>=◌, ◌>>◌, pure, new, borrow, drop_borrowed, wake_one,
  head_input, head_input_mut, wait_resume, wait_poll, wait_drop,
}
use unsync.Prelude.Histories.{reply, calls, promises, Lands, calls-Lands}
use unsync.WaitList.Links.{has}
use unsync.WaitList.Spec.{Queue, find_done, empty, start}
use unsync.WaitList.Spec
use unsync.WaitList.Refine.{
  Refines, Owned, Reaches, Keeps, Refines-borrow, borrow-ok, drop_borrowed-ok,
}
use unsync.WaitList.Refine.Wake.{wake_one-Reaches}
use unsync.WaitList.Refine.Starts.{wait_start-Reaches}
use unsync.WaitList.Refine.Polls.{poll-Keeps}
use unsync.WaitList.Refine.Drops.{drop-Keeps}
use unsync.WaitList.Refine.Heads.{head_input-Reaches, head_input_mut-Reaches}
use unsync.WaitList.Calls.{
  Call, first_poll, later_poll, cancel, wake, look, change, Reply, polled, cancelled, woke, looked,
  call, promised,
}

pub new-idle : (I O W : Type 0) → (new {I = I} {O = O} {W = W}).borrowed ≡ false
unfolding new
new-idle I O W = refl

module _ {I O W : Type 0} where
  reply-Keeps :
      {A B : Type 0} (f : A → B) (x : Option (A × Queue I O W)) (m : Run (World I O W) A)
      → Keeps x m
      → Keeps (reply f x) (and_then m λ a s. returns (f a) s)
  reply-Keeps f none m k = tt
  reply-Keeps f (some (a, q)) m k = record {
    after = k.after;
    run = rw k.run;
    refines = k.refines;
    owned = k.owned;
    borrowed = k.borrowed;
  }

  -- A call made under a borrow that lasts as long as the call.
  borrowed-Reaches :
      {A B : Type 0} (f : A → B) (m : Cmd (World I O W) A) (a : A) (q' : Queue I O W)
      (s : World I O W)
      → s.borrowed ≡ false
      → Reaches a q' true (m (record s { borrowed = true }))
      → Reaches (f a) q' false ((borrow >> (m >>= λ b. drop_borrowed >> pure (f b))) s)
  borrowed-Reaches f m a q' s idle k = record {
    after = record (k.after) { borrowed = false };
    run = rw (borrow-ok s idle, k.run, drop_borrowed-ok k.after k.borrowed);
    refines = Refines-borrow false k.refines;
    owned = k.owned;
    borrowed = refl;
  }

module _ {I O W : Type 0} (will_wake : W → W → Bool) where
  module _ (q : Queue I O W) (s : World I O W) (idle : s.borrowed ≡ false) (r : Refines q s)
      (ow : Owned q s) where
    first_poll-Keeps :
        (p : Ptr) (i : I) (cx : W)
        → Keeps (promised will_wake (first_poll p i cx) q) (call will_wake (first_poll p i cx) s)
    unfolding call promised wait_resume
    first_poll-Keeps p i cx = elim (Bool-cases (has p q.waiting || is_some (find_done p q.done))) [
      | inl h ↦ rw h tt
      | inr h ↦
          let out : has p q.waiting ≡ false = ground arith in
          let new : find_done p q.done ≡ none = ground arith in
          let k = wait_start-Reaches will_wake p i cx q s idle (ow p out new) r ow in
          rw h (record {
            after = k.after;
            run = rw k.run;
            refines = k.refines;
            owned = k.owned;
            borrowed = k.borrowed;
          })
    ]

    call-Keeps : (c : Call I O W) → Keeps (promised will_wake c q) (call will_wake c s)
    unfolding call promised
    call-Keeps (first_poll p i cx) = first_poll-Keeps p i cx
    call-Keeps (later_poll p cx) =
        reply-Keeps polled (Spec.poll will_wake p cx q) (wait_poll will_wake p cx s)
          (poll-Keeps will_wake p cx q s idle r ow)
    call-Keeps (cancel p) =
        reply-Keeps cancelled (Spec.drop p q) (wait_drop p s) (drop-Keeps p q s idle r ow)
    call-Keeps (wake o) =
        let (a, q') = Spec.wake_one o q in
        borrowed-Reaches woke (wake_one o) a q' s idle
          (wake_one-Reaches o q (record s { borrowed = true }) (Refines-borrow true r) ow)
    call-Keeps look =
        borrowed-Reaches looked head_input (Spec.head_input q.waiting) q s idle
          (head_input-Reaches q (record s { borrowed = true }) (Refines-borrow true r) ow)
    call-Keeps (change f) =
        borrowed-Reaches looked (head_input_mut f) (Spec.head_input q.waiting)
          (record q { waiting = Spec.change_head f q.waiting }) s idle
          (head_input_mut-Reaches f q (record s { borrowed = true }) (Refines-borrow true r) ow)

  abbrev Holds : ℕ → Queue I O W → World I O W → Type 0
  Holds k q s = (s.borrowed ≡ false) × Refines q s × Owned q s

  Keeps-Lands :
      {A : Type 0} (k : ℕ) (o : Option (A × Queue I O W)) (x : Run (World I O W) A)
      → Keeps o x
      → Lands Holds k o x
  Keeps-Lands k none x h = tt
  Keeps-Lands k (some (a, q)) x h = (h.after, h.run, (h.borrowed, h.refines, h.owned))

  call-Lands :
      (k : ℕ) (c : Call I O W) (q : Queue I O W) (s : World I O W)
      → Holds (suc k) q s
      → Lands Holds k (promised will_wake c q) (call will_wake c s)
  call-Lands k c q s (idle, r, ow) =
      Keeps-Lands k (promised will_wake c q) (call will_wake c s) (call-Keeps q s idle r ow c)

  pub new-Refines : Refines empty (new {I = I} {O = O} {W = W})
  unfolding new empty
  new-Refines = record {
    queue = record { head = refl; tail = refl; links = tt; distinct = tt };
    done = tt;
    woken = refl;
  }

  pub new-Owned : Owned empty (new {I = I} {O = O} {W = W})
  unfolding new
  new-Owned p h f = refl

  -- From `WaitList::new` on, whatever calls are made in whatever order, if each of them can be made
  -- at all, the code returns from each what the queue of the promise returns, and ends with the
  -- list not borrowed, its memory holding that queue and nothing else. So there is no panic, no
  -- abort, no failed assertion, no access to memory that is gone, no read of the wrong member of
  -- the union, and no waiter is left behind.
  pub calls-Reaches :
      (cs : List (Call I O W)) {rs : List (Reply I O)} {q : Queue I O W}
      → promises (promised will_wake) cs empty ≡ some (rs, q)
      → Reaches rs q false (calls (call will_wake) cs new)
  calls-Reaches cs e =
      let all =
        calls-Lands Holds (call will_wake) (promised will_wake) call-Lands cs empty new
          (new-idle I O W, new-Refines, new-Owned) in
      let (s, run, h) = subst (λ x. Lands Holds 0 x (calls (call will_wake) cs new)) e all in
      record { after = s; run = run; refines = h.1; owned = h.2; borrowed = h.0 }
