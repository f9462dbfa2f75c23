-- ===== src/Broadcast/System/Subscribes.antt =====
-- A new receiver of a broadcast channel, from a sound system.
use unsync.Prelude.{
  ℕ, ◌+◌, ◌<◌, ◌≡◌, refl, sym, ap, subst, ◌∙◌, Bool, true, Option, none, some, [], arith, inl, inr,
  Bool-cases, ◌==◌,
}
use unsync.Utils.{Allocator, usize_max, with_capacity}
use unsync.Utils.Sleepers.{nobody}
use unsync.BroadRc.{strong_get, set_value, load}
use unsync.BroadRc.Handles.{downgrade-shared_by}
use unsync.Broadcast.Slab.{SlabOf, IsLawful}
use unsync.Broadcast.Slab.Lists.{Each-Inserted, IsDistinct-Inserted, length-Inserted}
use unsync.Broadcast.Slab.Keys.{lookup-Inserted}
use unsync.Broadcast.{ReceiverState, Shared, receiver_of, new_receiver, subscribe}
use unsync.Broadcast.System.{Log, Subscription, subscribes, step}
use unsync.Broadcast.System.Sound.{IsSound, Holds, Goes, system}
use unsync.Broadcast.System.Sends.{idle, idle-awake}

module _ {T W : Type 0} (al : Allocator) (task : W → ℕ) (limit : Option ℕ)
    {S : SlabOf (ReceiverState T W)} (law : IsLawful S) (will_wake : W → W → Bool)
    (sound : (v w : W) → will_wake v w ≡ true → task v ≡ task w) where
  abbrev newly : Subscription T
  newly = record { there = true; asleep = none; due = []; received = [] }

  -- A new receiver is due nothing and holds nothing.
  receiver_of-Holds :
      (limit : Option ℕ) (id : ℕ) → Holds al task limit true none id newly (receiver_of al limit id)
  unfolding receiver_of with_capacity
  receiver_of-Holds none id = record {
    order = refl;
    number = omega arith;
    room = refl;
    rx = nobody;
  }
  receiver_of-Holds (some n) id = record {
    order = refl;
    number = omega arith;
    room = (refl, refl, omega arith);
    rx = nobody;
  }

  pub subscribes-Goes :
      (inner : Shared S) (l : Log T)
      → IsSound al task limit inner (system inner true (idle al task limit law will_wake sound l))
      → l.receivers < usize_max
      → Goes al task limit (
          step task al will_wake
            (system inner true (idle al task limit law will_wake sound l))
            subscribes)
  unfolding step subscribe new_receiver strong_get set_value load
  subscribes-Goes inner l v small =
      let one = receiver_of al inner.capacity inner.id in
      let (k, receivers) = S.insert one inner.receivers in
      let inserted = law.items-insert one inner.receivers in
      let counted =
        downgrade-shared_by (record inner { receivers = receivers }) l.receivers small in
      let self : (k == k) ≡ true = ground arith in
      rw counted (
        record inner { receivers = receivers },
        (
          _,
          refl,
          record {
            memory = refl;
            capacity = v.capacity;
            good = record {
              distinct = IsDistinct-Inserted k one _ _ inserted v.good.distinct;
              count = length-Inserted k one _ _ inserted ∙ ap (λ n. n + 1) v.good.count;
              there = λ j. rw (lookup-Inserted j k one _ _ inserted) (elim (Bool-cases (k == j)) [
                | inl here ↦ rw here refl
                | inr other ↦ rw other (v.good.there j)
              ]);
              number = v.good.number;
              fits = v.good.fits;
              few = omega arith;
              sends = refl;
              each =
                  Each-Inserted (λ j r. Holds al task limit true none inner.id (l.subs j) r) _ k one
                    _ _ inserted (λ j r other h. rw other h)
                    (rw self (
                      subst
                        (λ c.
                          Holds al task limit true none inner.id newly (receiver_of al c inner.id))
                        (sym v.capacity) (receiver_of-Holds limit inner.id)))
                    v.good.each;
              tx = rw (idle-awake al task limit law will_wake sound inner l v) nobody;
            };
          },
        ),
      )
