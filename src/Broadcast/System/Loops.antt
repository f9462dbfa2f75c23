-- ===== src/Broadcast/System/Loops.antt =====
-- What the loops over the receivers do to each of them and to those that sleep.
use unsync.Prelude.{
  ℕ, ◌+◌, ◌<◌, ◌≡◌, refl, sym, ap, ◌∙◌, Bool, true, false, not, Option, none, some, List, [], ◌∷◌,
  ◌++◌, append_assoc, append-nil, arith, inl, inr, Bool-cases, ◌==◌, if◌then◌else◌, length,
  length-append,
}
use unsync.Utils.{Allocator, push_back, wake, len}
use unsync.Utils.Sleepers.{nobody, SleepsOnlyIf-sleeping, sleeping, sleeping-heard}
use unsync.Broadcast.Slab.{visit}
use unsync.Broadcast.Slab.Lists.{Each}
use unsync.Broadcast.{ReceiverState, at_capacity, deliver, try_deliver, take_waker}
use unsync.Broadcast.Deliver.{Handled, holds, full, takes, deliver-Handled}
use unsync.Broadcast.System.{Subscription}
use unsync.Broadcast.System.Sound.{reached, IsServed, Room, Holds}
use unsync.Broadcast.System.Wakes.{Extends, Extends-refl, Extends-wake, visit-Each}

module _ {T W : Type 0} (al : Allocator) where
  Room-push :
      (limit : Option ℕ) (r : ReceiverState T W) (value : T) (n : ℕ)
      → at_capacity r ≡ false
      → Room al limit r
      → Room al limit (record r { id = n; buf = push_back al r.buf value })
  unfolding at_capacity push_back len
  Room-push none r value n free h = h
  Room-push (some m) r value n free (u, c, l) =
      let fits : length r.buf.items < al.with_capacity m = ground arith in
      (u, ground arith, rw (length-append r.buf.items (value ∷ [])) (omega arith))

  pub Room-waker :
      (limit : Option ℕ) (r : ReceiverState T W) (waker : Option W)
      → Room al limit r
      → Room al limit (record r { waker = waker })
  Room-waker none r waker h = h
  Room-waker (some m) r waker h = h

  Handled-Extends :
      (id : ℕ) (value : T) (r : ReceiverState T W) (n : ℕ) (ws : List W)
      {x : ReceiverState T W × (ℕ × List W)}
      → Handled al id value r n ws x
      → Extends ws x.1.1
  Handled-Extends id value r n ws (holds h) = Extends-refl ws
  Handled-Extends id value r n ws (full h k) = Extends-refl ws
  Handled-Extends id value r n ws (takes h k) = Extends-wake r.waker ws

  deliver-Extends :
      (id : ℕ) (value : T) (r : ReceiverState T W) (b : ℕ × List W)
      → Extends b.1 (deliver al id value r b).1.1
  deliver-Extends id value r (n, ws) =
      Handled-Extends id value r n ws (deliver-Handled al id value r n ws)

  try_deliver-Extends :
      (value : T) (r : ReceiverState T W) (b : ℕ × List W)
      → Extends b.1 (try_deliver al value r b).1.1
  unfolding try_deliver
  try_deliver-Extends value r (n, ws) = elim (Bool-cases (at_capacity r)) [
    | inl no_room ↦ rw no_room (Extends-refl ws)
    | inr room ↦ rw room (Extends-wake r.waker ws)
  ]

  take_waker-Extends : (r : ReceiverState T W) (ws : List W) → Extends ws (take_waker r ws).1
  unfolding take_waker
  take_waker-Extends r ws = Extends-wake r.waker ws

  module _ (task : W → ℕ) (limit : Option ℕ) (subs : ℕ → Subscription T) where
    -- The part of the log of a receiver, after all of `final` were woken.
    abbrev pub heard : List W → ℕ → Subscription T
    heard final j = record (subs j) { asleep = sleeping task (subs j).asleep final }

    -- To wake others does not change what holds of a receiver.
    pub Holds-heard :
        {sender : Bool} {sending : Option T} {id : ℕ} {r : ReceiverState T W} (j : ℕ)
        (final : List W)
        → Holds al task limit sender sending id (subs j) r
        → Holds al task limit sender sending id (heard final j) r
    Holds-heard j final h = record {
      order = h.order;
      number = h.number;
      room = h.room;
      rx = SleepsOnlyIf-sleeping task (subs j).asleep final h.rx;
    }

    module _ (id : ℕ) (value : T) where
      abbrev pub Served : List W → ℕ → ReceiverState T W → Type 0
      Served final j r =
          Holds al task limit true (some value) id (heard final j) r × IsServed id j r

      Handled-Served :
          (j : ℕ) (r : ReceiverState T W) (n : ℕ) (ws final : List W)
          {x : ReceiverState T W × (ℕ × List W)}
          → Handled al id value r n ws x
          → Holds al task limit true (some value) id (subs j) r
          → Extends x.1.1 final
          → Served final j x.0
      unfolding push_back
      Handled-Served j r n ws final (holds held) h e = (Holds-heard j final h, rw held refl)
      Handled-Served j r n ws final (full new no_room) h e =
          (Holds-heard j final h, rw (new, no_room) refl)
      Handled-Served j r n ws final (takes new room) h (more, e) =
          let self : (id == id) ≡ true = ground arith in
          let unreached : reached (some value) id r.id ≡ [] = rw new refl in
          let order : (subs j).received ++ r.buf.items ≡ (subs j).due =
            h.order ∙ ap (λ l. (subs j).due ++ l) unreached ∙ append-nil (subs j).due in
          (
            record {
              order = rw self (
                  sym (append_assoc (subs j).received r.buf.items (value ∷ []))
                  ∙ ap (λ l. l ++ (value ∷ [])) order);
              number = omega arith;
              room = Room-push limit r value id room h.room;
              rx = rw (e, sleeping-heard task more ws h.rx) nobody;
            },
            rw self refl,
          )

      -- One pass of `Send::poll`.
      pub deliver-Served :
          (rs : List (ℕ × ReceiverState T W)) (b : ℕ × List W)
          → Each (λ j r. Holds al task limit true (some value) id (subs j) r) rs
          → let x = visit (deliver al id value) rs b in Each (Served x.1.1) x.0
      deliver-Served rs b h =
          let final = (visit (deliver al id value) rs b).1.1 in
          visit-Each (λ b. b.1) (deliver al id value) (deliver-Extends id value)
            (λ j r. Holds al task limit true (some value) id (subs j) r) (Served final) final
            (λ j r (n, ws) p e.
              Handled-Served j r n ws final (deliver-Handled al id value r n ws) p e)
            rs b h (Extends-refl final)

    -- A receiver before `try_send`, and what it is due then.
    module _ (id : ℕ) (value : T) (room : ℕ → Bool) where
      abbrev pub Before : ℕ → ReceiverState T W → Type 0
      Before j r = Holds al task limit true none id (subs j) r × (room j ≡ not (at_capacity r))

      abbrev pub tried : List W → ℕ → Subscription T
      tried final j =
          if room j
          then record (heard final j) { due = (subs j).due ++ (value ∷ []) }
          else heard final j

      Before-tried :
          (j : ℕ) (r : ReceiverState T W) (n : ℕ) (ws final : List W)
          → Before j r
          → Extends (try_deliver al value r (n, ws)).1.1 final
          → Holds al task limit true none
              (id + 1)
              (tried final j)
              (try_deliver al value r (n, ws)).0
      unfolding try_deliver push_back
      Before-tried j r n ws final (h, here) e = elim (Bool-cases (at_capacity r)) [
        | inl no_room ↦
            rw (here, no_room)
              (record {
                order = h.order;
                number = omega (arith, h.number);
                room = h.room;
                rx = SleepsOnlyIf-sleeping task (subs j).asleep final h.rx;
              })
        | inr free ↦
            let (more, e') : Extends (wake r.waker ws) final = rw free at e in
            rw (here, free)
              (record {
                order =
                    sym (append_assoc (subs j).received r.buf.items (value ∷ []))
                    ∙ ap (λ l. l ++ (value ∷ [])) (h.order ∙ append-nil (subs j).due)
                    ∙ sym (append-nil ((subs j).due ++ (value ∷ [])));
                number = omega (arith, h.number);
                room = Room-push limit r value r.id free h.room;
                rx = rw (e', sleeping-heard task more ws h.rx) nobody;
              })
      ]

      -- The loop of `try_send`.
      pub try_deliver-tried :
          (rs : List (ℕ × ReceiverState T W)) (b : ℕ × List W)
          → Each Before rs
          → let x = visit (try_deliver al value) rs b in
            Each (λ j r. Holds al task limit true none (id + 1) (tried x.1.1 j) r) x.0
      try_deliver-tried rs b h =
          let final = (visit (try_deliver al value) rs b).1.1 in
          visit-Each (λ b. b.1) (try_deliver al value) (try_deliver-Extends value) Before
            (λ j r. Holds al task limit true none (id + 1) (tried final j) r) final
            (λ j r (n, ws) p e. Before-tried j r n ws final p e) rs b h (Extends-refl final)

    -- The loop of `Drop` of the sender: nobody sleeps on.
    pub take_waker-heard :
        (id : ℕ) (rs : List (ℕ × ReceiverState T W)) (ws : List W)
        → Each (λ j r. Holds al task limit true none id (subs j) r) rs
        → let x = visit take_waker rs ws in
          Each (λ j r. Holds al task limit false none id (heard x.1 j) r) x.0
    unfolding take_waker
    take_waker-heard id rs ws h =
        let final = (visit take_waker rs ws).1 in
        visit-Each (λ b. b) take_waker take_waker-Extends
          (λ j r. Holds al task limit true none id (subs j) r)
          (λ j r. Holds al task limit false none id (heard final j) r) final
          (λ j r ws p (more, e). record {
            order = p.order;
            number = p.number;
            room = Room-waker limit r none p.room;
            rx = rw (e, sleeping-heard task more ws p.rx) nobody;
          })
          rs ws h (Extends-refl final)
