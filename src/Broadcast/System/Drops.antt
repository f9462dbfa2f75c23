-- ===== src/Broadcast/System/Drops.antt =====
-- The drops of the ends of a broadcast channel, each from a sound system.
use unsync.Prelude.{
  ℕ, ◌≡◌, refl, sym, subst, ◌∙◌, Bool, true, Option, none, some, [], arith, inl, inr, Bool-cases,
  ◌==◌,
}
use unsync.Utils.{Allocator, wake}
use unsync.Utils.Sleepers.{nobody, sleeping-none, sleeping-wake}
use unsync.BroadRc.{strong_get, set_value, load}
use unsync.BroadRc.Handles.{shared_by, drop_strong-shared_by, drop_weak-shared_by}
use unsync.Broadcast.Slab.{SlabOf, IsLawful, lookup}
use unsync.Broadcast.Slab.Lists.{Each-remove, IsDistinct-remove, length-remove}
use unsync.Broadcast.Slab.Keys.{length-visit, lookup-visit, IsDistinct-visit, lookup-remove}
use unsync.Broadcast.{
  ReceiverState, Shared, World, in_world, wake_slot, drop_sender, drop_receiver, take_waker,
}
use unsync.Broadcast.System.{Log, drops_sender, drops_receiver, step, after, without_sender}
use unsync.Broadcast.System.Loops.{Holds-heard, take_waker-heard}
use unsync.Broadcast.System.Sound.{IsSound, Holds, Goes, system}
use unsync.Broadcast.System.Sends.{idle, idle-awake}
use unsync.Broadcast.System.Puts.{weak_get-shared_by, set_value-shared_by, some_there}
use unsync.Broadcast.System.Receives.{found}

module _ {T W : Type 0} (al : Allocator) (task : W → ℕ) (limit : Option ℕ) where
  module _ {S : SlabOf (ReceiverState T W)} (law : IsLawful S) (will_wake : W → W → Bool)
      (sound : (v w : W) → will_wake v w ≡ true → task v ≡ task w) where
    pub drops_sender-Goes :
        (inner : Shared S) (l : Log T)
        → IsSound al task limit inner (system inner true (idle al task limit law will_wake sound l))
        → Goes al task limit (
            step task al will_wake
              (system inner true (idle al task limit law will_wake sound l))
              drops_sender)
    unfolding step drop_sender strong_get set_value load
    drops_sender-Goes inner l v =
        let x = S.iter_mut take_waker inner.receivers [] in
        let items = law.items-iter_mut take_waker inner.receivers [] in
        let carried = law.iter_mut-visit take_waker inner.receivers [] in
        let inner' = record inner { receivers = x.0 } in
        let s = system inner true (idle al task limit law will_wake sound l) in
        let w : World S = record {
          memory = shared_by inner' (record { sender = true; receivers = l.receivers });
          woken = x.1;
        } in
        subst
          (λ m. Goes al task limit (without_sender task (after task s (λ u l. l) (in_world w m))))
          (sym (drop_strong-shared_by inner' l.receivers))
          (
            inner',
            (
              _,
              refl,
              record {
                memory = refl;
                capacity = v.capacity;
                good = record {
                  distinct = rw items (IsDistinct-visit take_waker _ [] v.good.distinct);
                  count = rw items (length-visit take_waker _ [] ∙ v.good.count);
                  there = λ j. v.good.there j ∙ rw items (sym (lookup-visit take_waker j _ []));
                  number = v.good.number;
                  fits = v.good.fits;
                  few = v.good.few;
                  sends = refl;
                  each =
                      rw (items, carried)
                        (take_waker-heard al task limit l.subs inner.id _ [] v.good.each);
                  tx =
                      rw
                        (
                          idle-awake al task limit law will_wake sound inner l v,
                          sleeping-none task x.1,
                        )
                        nobody;
                };
              },
            ),
          )

    drops_found-Goes :
        (inner : Shared S) (a : Bool) (l : Log T) (k : ℕ) (r : ReceiverState T W)
        → IsSound al task limit inner (system inner a l)
        → lookup k (S.items inner.receivers) ≡ some r
        → Goes al task limit (step task al will_wake (system inner a l) (drops_receiver k))
    unfolding step drop_receiver wake_slot
    drops_found-Goes inner a l k r v own =
        let some_left = some_there al task limit law will_wake sound inner a l k r v own in
        let inner' : Shared S = record inner {
          sender = none;
          receivers = S.try_remove k inner.receivers;
        } in
        let items = law.items-try_remove k inner.receivers in
        let fewer = length-remove k (S.items inner.receivers) (λ e. cc) in
        rw
          (
            weak_get-shared_by inner a l.receivers some_left,
            set_value-shared_by inner inner' a l.receivers some_left,
            drop_weak-shared_by inner' a l.receivers v.good.few some_left,
          )
          (
            inner',
            (
              _,
              refl,
              record {
                memory = refl;
                capacity = v.capacity;
                good = record {
                  distinct = rw items (IsDistinct-remove k _ v.good.distinct);
                  count = rw items (let same = v.good.count in omega (arith, fewer));
                  there = λ j.
                      rw (items, lookup-remove j k (S.items inner.receivers) v.good.distinct)
                        (elim (Bool-cases (k == j)) [
                          | inl here ↦ rw here refl
                          | inr other ↦ rw other (v.good.there j)
                        ]);
                  number = v.good.number;
                  fits = v.good.fits;
                  few = let small = v.good.few in omega arith;
                  sends = v.good.sends;
                  each = rw items (
                      Each-remove (λ j c. Holds al task limit a l.sending inner.id (l.subs j) c) _ k
                        _ v.good.distinct
                        (λ j c other h.
                          rw other (Holds-heard al task limit l.subs j (wake inner.sender []) h))
                        v.good.each);
                  tx = rw (sleeping-wake task v.good.tx) nobody;
                };
              },
            ),
          )

    pub drops_receiver-Goes :
        (inner : Shared S) (a : Bool) (l : Log T) (k : ℕ)
        → IsSound al task limit inner (system inner a l)
        → (l.subs k).there ≡ true
        → Goes al task limit (step task al will_wake (system inner a l) (drops_receiver k))
    drops_receiver-Goes inner a l k v h =
        let (r, own) = found al task limit law will_wake sound inner a l k v h in
        drops_found-Goes inner a l k r v own
