-- ===== src/Broadcast/System/Receives.antt =====
-- `recv` of a broadcast channel's receivers, from a sound system.
use unsync.Prelude.{
  ℕ, ◌≡◌, refl, sym, ◌∙◌, Bool, true, false, Option, none, some, List, [], ◌∷◌, ◌++◌, append_assoc,
  arith, inl, inr, Bool-cases, ◌==◌,
}
use unsync.Utils.{Allocator, wake, register, pop_front, pop_items}
use unsync.Utils.Sleepers.{nobody, sleeping-wake, register-SleepsOnlyIf}
use unsync.BroadRc.{weak_get, set_value, load}
use unsync.Broadcast.Slab.{SlabOf, IsLawful, lookup}
use unsync.Broadcast.Slab.Lists.{Each-map}
use unsync.Broadcast.{ReceiverState, Shared, recv_poll, recv_found, recv_popped, wake_slot}
use unsync.Broadcast.System.{Log, Subscription, polls_recv, cancels_recv, step}
use unsync.Broadcast.System.Loops.{Room-waker}
use unsync.Broadcast.System.Sound.{IsSound, Holds, Goes, Room, system}
use unsync.Broadcast.System.Puts.{
  weak_get-shared_by, set_value-shared_by, is_some-some, some_there, old-Holds, put, put-Good,
  tx-gone,
}

module _ {T W : Type 0} (al : Allocator) (task : W → ℕ) (limit : Option ℕ) where
  -- A receiver, its fields written out.
  abbrev at : ℕ → Option W → List T → ℕ → Bool → ReceiverState T W
  at id waker items capacity unbounded = record {
    id = id;
    waker = waker;
    buf = record { items = items; capacity = capacity };
    unbounded = unbounded;
  }

  abbrev awake : Subscription T → Subscription T
  awake s = record s { asleep = none }

  abbrev took : T → Subscription T → Subscription T
  took value s = record s { asleep = none; received = s.received ++ (value ∷ []) }

  abbrev sleeps : ℕ → Subscription T → Subscription T
  sleeps t s = record s { asleep = some t }

  Room-pop :
      (limit : Option ℕ) (id : ℕ) (waker : Option W) (value : T) (items : List T) (c : ℕ) (u : Bool)
      → Room al limit (at id waker (value ∷ items) c u)
      → Room al limit (at id waker items c u)
  Room-pop none id waker value items c u h = h
  Room-pop (some n) id waker value items c u (h, k, l) = (h, k, omega (arith, l))

  module _ {S : SlabOf (ReceiverState T W)} (law : IsLawful S) (will_wake : W → W → Bool)
      (sound : (v w : W) → will_wake v w ≡ true → task v ≡ task w) where
    module _ (inner : Shared S) (l : Log T) (k : ℕ) (id : ℕ) (waker : Option W) (c : ℕ)
        (u : Bool) where
      recv_value-Goes :
          (a : Bool) (value : T) (items : List T) (cx : W)
          → IsSound al task limit inner (system inner a l)
          → lookup k (S.items inner.receivers) ≡ some (at id waker (value ∷ items) c u)
          → Goes al task limit (step task al will_wake (system inner a l) (polls_recv k cx))
      unfolding step recv_poll recv_found pop_front pop_items recv_popped wake_slot
      recv_value-Goes a value items cx v own =
          let r = at id waker items c u in
          let some_left = some_there al task limit law will_wake sound inner a l k _ v own in
          let before = old-Holds al task limit law will_wake sound inner a l k _ v own in
          rw
            (
              weak_get-shared_by inner a l.receivers some_left,
              law.get-items k inner.receivers ∙ own,
              set_value-shared_by inner
                  (put al task limit law will_wake sound inner a l k _ v own r) a l.receivers
                  some_left,
            )
            (
              put al task limit law will_wake sound inner a l k _ v own r,
              (
                _,
                refl,
                record {
                  memory = refl;
                  capacity = v.capacity;
                  good =
                      put-Good al task limit law will_wake sound inner a l k _ v own r (took value)
                        (wake inner.sender []) (sleeping-wake task v.good.tx) (λ s. refl)
                        (record {
                          order =
                              append_assoc (l.subs k).received (value ∷ []) items ∙ before.order;
                          number = before.number;
                          room = Room-pop limit id waker value items c u before.room;
                          rx = nobody;
                        });
                },
              ),
            )

      recv_closed-Goes :
          (cx : W)
          → IsSound al task limit inner (system inner false l)
          → lookup k (S.items inner.receivers) ≡ some (at id waker [] c u)
          → Goes al task limit (step task al will_wake (system inner false l) (polls_recv k cx))
      unfolding step recv_poll recv_found pop_front pop_items recv_popped
      recv_closed-Goes cx v own =
          let r = at id none [] c u in
          let some_left = some_there al task limit law will_wake sound inner false l k _ v own in
          let before = old-Holds al task limit law will_wake sound inner false l k _ v own in
          rw
            (
              weak_get-shared_by inner false l.receivers some_left,
              law.get-items k inner.receivers ∙ own,
              set_value-shared_by inner
                  (put al task limit law will_wake sound inner false l k _ v own r) false
                  l.receivers some_left,
            )
            (
              put al task limit law will_wake sound inner false l k _ v own r,
              (
                _,
                refl,
                record {
                  memory = refl;
                  capacity = v.capacity;
                  good =
                      put-Good al task limit law will_wake sound inner false l k _ v own r awake []
                        (tx-gone al task limit law will_wake sound inner l v) (λ s. refl)
                        (record {
                          order = before.order;
                          number = before.number;
                          room = Room-waker al limit _ none before.room;
                          rx = nobody;
                        });
                },
              ),
            )

      recv_waits-Goes :
          (cx : W)
          → IsSound al task limit inner (system inner true l)
          → lookup k (S.items inner.receivers) ≡ some (at id waker [] c u)
          → Goes al task limit (step task al will_wake (system inner true l) (polls_recv k cx))
      unfolding step recv_poll recv_found pop_front pop_items recv_popped wake_slot weak_get
          set_value load
      recv_waits-Goes cx v own =
          let r = at id (register will_wake waker cx) [] c u in
          let before = old-Holds al task limit law will_wake sound inner true l k _ v own in
          rw (law.get-items k inner.receivers ∙ own) (
            put al task limit law will_wake sound inner true l k _ v own r,
            (
              _,
              refl,
              record {
                memory = refl;
                capacity = v.capacity;
                good =
                    put-Good al task limit law will_wake sound inner true l k _ v own r
                      (sleeps (task cx)) (wake inner.sender []) (sleeping-wake task v.good.tx)
                      (λ s. refl)
                      (record {
                        order = before.order;
                        number = before.number;
                        room = Room-waker al limit _ (register will_wake waker cx) before.room;
                        rx = register-SleepsOnlyIf task will_wake sound waker cx (refl, refl);
                      });
              },
            ),
          )

      polls_found-Goes :
          (a : Bool) (items : List T) (cx : W)
          → IsSound al task limit inner (system inner a l)
          → lookup k (S.items inner.receivers) ≡ some (at id waker items c u)
          → Goes al task limit (step task al will_wake (system inner a l) (polls_recv k cx))
      polls_found-Goes a (value ∷ items) cx v own = recv_value-Goes a value items cx v own
      polls_found-Goes true [] cx v own = recv_waits-Goes cx v own
      polls_found-Goes false [] cx v own = recv_closed-Goes cx v own

    -- A receiver that is there is found.
    pub found :
        (inner : Shared S) (a : Bool) (l : Log T) (k : ℕ)
        → IsSound al task limit inner (system inner a l)
        → (l.subs k).there ≡ true
        → (r : ReceiverState T W) × (lookup k (S.items inner.receivers) ≡ some r)
    found inner a l k v h = is_some-some _ (sym (v.good.there k) ∙ h)

    pub polls_recv-Goes :
        (inner : Shared S) (a : Bool) (l : Log T) (k : ℕ) (cx : W)
        → IsSound al task limit inner (system inner a l)
        → (l.subs k).there ≡ true
        → Goes al task limit (step task al will_wake (system inner a l) (polls_recv k cx))
    polls_recv-Goes inner a l k cx v h =
        let (r, own) = found inner a l k v h in
        polls_found-Goes inner l k r.id r.waker r.buf.capacity r.unbounded a r.buf.items cx v own

    pub cancels_recv-Goes :
        (inner : Shared S) (a : Bool) (l : Log T) (k : ℕ)
        → IsSound al task limit inner (system inner a l)
        → Goes al task limit (step task al will_wake (system inner a l) (cancels_recv k))
    unfolding step
    cancels_recv-Goes inner a l k v = (
      inner,
      (
        _,
        refl,
        record {
          memory = refl;
          capacity = v.capacity;
          good = record {
            distinct = v.good.distinct;
            count = v.good.count;
            there = λ j. elim (Bool-cases (k == j)) [
              | inl here ↦ rw here (v.good.there j)
              | inr other ↦ rw other (v.good.there j)
            ];
            number = v.good.number;
            fits = v.good.fits;
            few = v.good.few;
            sends = v.good.sends;
            each =
                Each-map (λ j r. Holds al task limit a l.sending inner.id (l.subs j) r) _
                  (S.items inner.receivers)
                  (λ j r there h. elim (Bool-cases (k == j)) [
                    | inl here ↦
                        rw here (record {
                          order = h.order;
                          number = h.number;
                          room = h.room;
                          rx = nobody;
                        })
                    | inr other ↦ rw other h
                  ])
                  v.good.each;
            tx = v.good.tx;
          };
        },
      ),
    )
