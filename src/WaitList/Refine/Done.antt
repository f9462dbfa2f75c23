-- ===== src/WaitList/Refine/Done.antt =====
-- A future that has been woken ends, by a poll or by its drop: its output is taken, and its
-- waiter's memory is given back.
use unsync.Prelude.{
  ◌≡◌, ◌≢◌, refl, ◌∙◌, Bool, true, false, none, List, [], ◌∷◌, arith, ◌==◌, inl, inr, Bool-cases,
  ready,
}
use unsync.WaitList.{
  Ptr, output, World, returns, write, wait_inner_poll, update_waker, wait_inner_drop, take_output,
  drop_waiter, drop_state, get_output,
}
use unsync.WaitList.Links.{Entry, has, Links-write, write-ne, write_self}
use unsync.WaitList.Relink.{load-ok}
use unsync.WaitList.Spec.{Queue, find_done, remove_done}
use unsync.WaitList.Refine.{
  IsDone, AreDone, Refines, Owned, AreDone-frame, borrow-ok, try_borrow-ok,
}

module _ {O : Type 0} where
  find_done-remove :
      (q p : Ptr) (ds : List (Ptr × O))
      → find_done q ds ≡ none
      → find_done q (remove_done p ds) ≡ none
  unfolding find_done remove_done
  find_done-remove q p [] h = refl
  find_done-remove q p ((a, o) ∷ ds) h = ground (arith, find_done-remove q p ds)

  find_done-remove_ne :
      (q p : Ptr) (ds : List (Ptr × O))
      → (q == p) ≡ false
      → find_done q (remove_done p ds) ≡ none
      → find_done q ds ≡ none
  unfolding find_done remove_done
  find_done-remove_ne q p [] ne h = refl
  find_done-remove_ne q p ((a, o) ∷ ds) ne h = ground (arith, find_done-remove_ne q p ds)

  pub remove_done-absent :
      (p : Ptr) (ds : List (Ptr × O)) → find_done p ds ≡ none → remove_done p ds ≡ ds
  unfolding find_done remove_done
  remove_done-absent p [] h = refl
  remove_done-absent p ((q, o) ∷ ds) h = ground (arith, remove_done-absent p ds)

  pub find_done-apart :
      (a p : Ptr) (ds : List (Ptr × O))
      → find_done p ds ≡ none
      → find_done a ds ≢ none
      → (a == p) ≡ false
  find_done-apart a p ds h k = elim (Bool-cases (a == p)) [
    | inl e ↦ let e' : a ≡ p = ground arith in absurd (k (rw e' h))
    | inr e ↦ e
  ]

module _ {I O W : Type 0} where
  abbrev pub freed : World I O W → Ptr → World I O W
  freed s p = record s { borrowed = false; cells = write s.cells p none }

  AreDone-freed :
      (p : Ptr) (es : List (Entry I W)) (s : World I O W) (ds : List (Ptr × O))
      → AreDone es s ds
      → AreDone es (freed s p) (remove_done p ds)
  unfolding remove_done
  AreDone-freed p es s [] a = tt
  AreDone-freed p es s ((q, o) ∷ ds) (d, out, new, rest) = elim (Bool-cases (p == q)) [
    | inl e ↦
        let e' : p ≡ q = ground arith in
        rw e (
          AreDone-frame es es s (freed s p) ds
            (λ a h f. write-ne s.cells p none a (find_done-apart a p ds (rw e' new) f)) (λ a h f. h)
            rest)
    | inr e ↦ rw e (
      record {
        cell = d.cell;
        at = write-ne s.cells p none q (ground arith) ∙ d.at;
        state = d.state;
        waker = d.waker;
      },
      out,
      find_done-remove q p ds new,
      AreDone-freed p es s ds rest,
    )
  ]

  module _ (q : Queue I O W) (s : World I O W) (p : Ptr) (r : Refines q s)
      (out : has p q.waiting ≡ false) where
    -- The memory of a waiter that is not in the list can be given back.
    pub Refines-freed : Refines (record q { done = remove_done p q.done }) (freed s p)
    Refines-freed = record {
      queue = record {
        head = r.queue.head;
        tail = r.queue.tail;
        links = Links-write s.cells p none q.waiting none none out r.queue.links;
        distinct = r.queue.distinct;
      };
      done = AreDone-freed p q.waiting s q.done r.done;
      woken = r.woken;
    }

  pub Owned-freed :
      (q : Queue I O W) (s : World I O W) (p : Ptr)
      → Owned q s
      → Owned (record q { done = remove_done p q.done }) (freed s p)
  Owned-freed q s p ow a h f = elim (Bool-cases (a == p)) [
    | inl e ↦ let e' : a ≡ p = ground arith in rw e' (write_self s.cells p none)
    | inr e ↦ write-ne s.cells p none a e ∙ ow a h (find_done-remove_ne a p q.done e f)
  ]

  module _ (s : World I O W) (idle : s.borrowed ≡ false) (p : Ptr) (o : O) (d : IsDone p o s) where
    abbrev pub rested : World I O W
    rested = record s { borrowed = false }

    pub inner_poll-done :
        (will_wake : W → W → Bool) (cx : W)
        → wait_inner_poll will_wake p cx s ≡ returns (ready tt) rested
    unfolding wait_inner_poll update_waker
    inner_poll-done will_wake cx =
        rw (borrow-ok s idle, load-ok (record s { borrowed = true }) d.at, d.waker)

    pub IsDone-rested : IsDone p o rested
    IsDone-rested = record { cell = d.cell; at = d.at; state = d.state; waker = d.waker }

    pub inner_drop-done : wait_inner_drop p s ≡ returns tt rested
    unfolding wait_inner_drop
    inner_drop-done =
        rw (try_borrow-ok s idle, load-ok (record s { borrowed = true }) d.at, d.waker)

    pub take_output-done : take_output p rested ≡ returns o (freed s p)
    unfolding take_output get_output
    take_output-done = rw (load-ok rested d.at, d.waker, d.state)

    pub drop_waiter-done : drop_waiter p rested ≡ returns (output o) (freed s p)
    unfolding drop_waiter drop_state get_output
    drop_waiter-done = rw (load-ok rested d.at, d.waker, d.state)
