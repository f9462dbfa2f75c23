-- ===== src/OnceCell/Pointers/Polls.antt =====
-- The futures `get_or_try_init` over the memory: first poll, later polls, and drop.
use unsync.Prelude.{
  ◌≡◌, ◌∙◌, refl, sym, subst, Bool, false, Option, none, some, Poll, ready, pending, Run, and_then,
  panic,
}
use unsync.WaitList.{Ptr, World, input, output, drop_borrowed, wait_poll, wait_drop}
use unsync.WaitList
use unsync.WaitList.Links.{has}
use unsync.WaitList.Spec.{Queue, find_done, remove_done, take_done, empty, start}
use unsync.WaitList.Spec
use unsync.WaitList.Refine.{Keeps}
use unsync.WaitList.Refine.Starts.{wait_start-Reaches}
use unsync.WaitList.Refine.Polls.{poll-Keeps, wait_poll-Reaches}
use unsync.WaitList.Refine.Drops.{drop-Keeps}
use unsync.OnceCell.{
  OnceCell, State, uninit, initializing, initialized, waiting, leading, finished, init_start,
  init_start_in, init_handed, init_found, init_poll, drop_found, init_drop,
}
use unsync.OnceCell.Pointers.{
  Cells, in_cells, set_state, cells_begun, cells_start_in, cells_start, cells_handed, cells_polled,
  cells_poll, cells_drop_state, cells_drop,
}
use unsync.OnceCell.Pointers.Stands.{Stands, Ends, Meets, stays, baton-Ends, baton-initialized}

module _ {T W : Type 0} where
  module _ (will_wake : W → W → Bool) (p : Ptr) (cx : W) where
    start_in-Ends :
        (st : State T) (c : OnceCell T W) (m : Cells T W)
        → has p c.waiters.waiting ≡ false
        → find_done p c.waiters.done ≡ none
        → Stands c m
        → m.waiters.borrowed ≡ false
        → let (r, t) = init_start_in st p cx c in
          Ends r t false (cells_start_in will_wake st p cx m)
    unfolding init_start_in cells_start_in set_state cells_begun
    start_in-Ends uninit c m out new v idle =
        stays leading (record c { state = initializing }) (record m { state = initializing })
          (record { refines = v.refines; owned = v.owned; state = refl }) idle
    start_in-Ends (initialized value) c m out new v idle = stays (finished value) c m v idle
    start_in-Ends initializing c m out new v idle =
        let w =
          wait_start-Reaches will_wake p tt cx c.waiters m.waiters idle (v.owned p out new)
            v.refines v.owned in
        rw w.run (
          stays waiting (record c { waiters = start p tt cx c.waiters })
            (record m { waiters = w.after })
            (record { refines = w.refines; owned = w.owned; state = v.state }) w.borrowed)

    pub start-Ends :
        (c : OnceCell T W) (m : Cells T W)
        → has p c.waiters.waiting ≡ false
        → find_done p c.waiters.done ≡ none
        → Stands c m
        → m.waiters.borrowed ≡ false
        → let (r, t) = init_start p cx c in Ends r t false (cells_start will_wake p cx m)
    unfolding init_start cells_start
    start-Ends c m out new v idle =
        subst
          (λ st.
            let (r, t) = init_start_in c.state p cx c in
            Ends r t false (cells_start_in will_wake st p cx m))
          (sym v.state) (start_in-Ends c.state c m out new v idle)

    handed-Meets :
        (st : State T) (c : OnceCell T W) (m : Cells T W)
        → c.state ≡ st
        → Stands c m
        → m.waiters.borrowed ≡ false
        → Meets (init_handed st c) (cells_handed st m)
    unfolding init_handed cells_handed
    handed-Meets uninit c m e v idle = tt
    handed-Meets initializing c m e v idle = stays leading c m v idle
    handed-Meets (initialized value) c m e v idle =
        rw (baton-initialized value m (v.state ∙ e)) (stays (finished value) c m v idle)

    found-Meets :
        (x : Option (Poll (Unit {0}) × Queue (Unit {0}) (Unit {0}) W)) (c : OnceCell T W)
        (m : Cells T W) (r : Run (World (Unit {0}) (Unit {0}) W) (Poll (Unit {0})))
        → Stands c m
        → Keeps x r
        → Meets (init_found c x) (and_then (in_cells m r) cells_polled)
    unfolding init_found cells_polled
    found-Meets none c m r v k = tt
    found-Meets (some (pending, q)) c m r v k = rw k.run (
        stays waiting (record c { waiters = q }) (record m { waiters = k.after })
          (record { refines = k.refines; owned = k.owned; state = v.state }) k.borrowed)
    found-Meets (some (ready u, q)) c m r v k =
        let c' : OnceCell T W = record c { waiters = q } in
        let m' : Cells T W = record m { waiters = k.after } in
        rw k.run (
          subst (λ st. Meets (init_handed c.state c') (cells_handed st m')) (sym v.state)
            (handed-Meets c.state c' m' refl
              (record { refines = k.refines; owned = k.owned; state = v.state }) k.borrowed))

    pub poll-Meets :
        (c : OnceCell T W) (m : Cells T W)
        → Stands c m
        → m.waiters.borrowed ≡ false
        → Meets (init_poll will_wake p cx c) (cells_poll will_wake p cx m)
    unfolding init_poll cells_poll
    poll-Meets c m v idle =
        found-Meets (Spec.poll will_wake p cx c.waiters) c m (wait_poll will_wake p cx m.waiters) v
          (poll-Keeps will_wake p cx c.waiters m.waiters idle v.refines v.owned)

    -- With the baton of a cell that is `Uninit`, which the code holds to be unreachable.
    pub poll-panics :
        (c : OnceCell T W) (m : Cells T W) (o : Unit {0})
        → has p c.waiters.waiting ≡ false
        → find_done p c.waiters.done ≡ some o
        → c.state ≡ uninit
        → Stands c m
        → m.waiters.borrowed ≡ false
        → cells_poll will_wake p cx m ≡ panic
    unfolding Spec.poll take_done cells_poll cells_polled cells_handed
    poll-panics c m o out there none_leads v idle =
        let handed : Spec.poll will_wake p cx c.waiters
            ≡ some (ready o, record (c.waiters) { done = remove_done p c.waiters.done }) =
          rw (out, there) refl in
        let k =
          wait_poll-Reaches will_wake p cx c.waiters m.waiters idle v.refines v.owned handed in
        rw k.run (rw (v.state ∙ none_leads) refl)

  -- The drop of a future, where the promise says anything.
  abbrev pub EndsIf : Option (OnceCell T W) → Run (Cells T W) (Unit {0}) → Type 0
  EndsIf none x = Unit {0}
  EndsIf (some c) x = Ends tt c false x

  dropped-EndsIf :
      (x : Option (WaitList.State (Unit {0}) (Unit {0}) × Queue (Unit {0}) (Unit {0}) W))
      (c : OnceCell T W) (m : Cells T W)
      (r : Run (World (Unit {0}) (Unit {0}) W) (WaitList.State (Unit {0}) (Unit {0})))
      → Stands c m
      → Keeps x r
      → EndsIf (drop_found c x) (and_then (in_cells m r) cells_drop_state)
  unfolding drop_found cells_drop_state
  dropped-EndsIf none c m r v k = tt
  dropped-EndsIf (some (input i, q)) c m r v k = rw k.run (
      stays tt (record c { waiters = q }) (record m { waiters = k.after })
        (record { refines = k.refines; owned = k.owned; state = v.state }) k.borrowed)
  dropped-EndsIf (some (output o, q)) c m r v k = rw k.run (
      baton-Ends (record c { waiters = q }) (record m { waiters = k.after })
        (record { refines = k.refines; owned = k.owned; state = v.state }) k.borrowed)

  pub drop-EndsIf :
      (p : Ptr) (c : OnceCell T W) (m : Cells T W)
      → Stands c m
      → m.waiters.borrowed ≡ false
      → EndsIf (init_drop p c) (cells_drop p m)
  unfolding init_drop cells_drop
  drop-EndsIf p c m v idle =
      dropped-EndsIf (Spec.drop p c.waiters) c m (wait_drop p m.waiters) v
        (drop-Keeps p c.waiters m.waiters idle v.refines v.owned)
