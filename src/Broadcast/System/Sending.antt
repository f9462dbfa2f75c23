-- ===== src/Broadcast/System/Sending.antt =====
-- A `send` of a broadcast channel that is under way: its poll and its end before it is ready, each
-- from a sound system.
use unsync.Prelude.{
  ℕ, ◌≡◌, refl, sym, ◌∙◌, Bool, true, false, Option, none, some, is_some, [], ◌∷◌, ◌++◌, append-nil,
  arith, inl, inr, Bool-cases, ◌==◌, length,
}
use unsync.Utils.{Allocator, register}
use unsync.Utils.Sleepers.{nobody, register-SleepsOnlyIf}
use unsync.BroadRc.{strong_get, set_value, load}
use unsync.Broadcast.Slab.{SlabOf, IsLawful, lookup}
use unsync.Broadcast.Slab.Lists.{Each, IsDistinct, Each-map}
use unsync.Broadcast.Slab.Keys.{Each-own, Each-both, length-visit, lookup-visit, IsDistinct-visit}
use unsync.Broadcast.{ReceiverState, Shared, send_poll, deliver, looped}
use unsync.Broadcast.Deliver.{holders, holders-all, deliver-Delivered}
use unsync.Broadcast.System.{Log, Subscription, polls_send, cancels_send, step, is_reached}
use unsync.Broadcast.System.Loops.{Served, deliver-Served}
use unsync.Broadcast.System.Sound.{IsSound, Holds, Goes, system}
use unsync.Broadcast.System.Sends.{grant-there, length-zero}

module _ {T W : Type 0} (al : Allocator) (task : W → ℕ) (limit : Option ℕ) where
  -- At the end of a `send`: who holds the message is due it, the others are not.
  Holds-got :
      (id : ℕ) (value : T) (u : Subscription T) (r : ReceiverState T W)
      → (r.id == id) ≡ true
      → Holds al task limit true (some value) id u r
      → Holds al task limit true none id (record u { due = u.due ++ (value ∷ []) }) r
  Holds-got id value u r held h = record {
    order = h.order ∙ rw held (sym (append-nil (u.due ++ (value ∷ []))));
    number = h.number;
    room = h.room;
    rx = h.rx;
  }

  Holds-missed :
      (id : ℕ) (value : T) (u : Subscription T) (r : ReceiverState T W)
      → (r.id == id) ≡ false
      → Holds al task limit true (some value) id u r
      → Holds al task limit true none id u r
  Holds-missed id value u r other h = record {
    order = h.order ∙ rw other refl;
    number = h.number;
    room = h.room;
    rx = h.rx;
  }

  module _ {S : SlabOf (ReceiverState T W)} (law : IsLawful S) (will_wake : W → W → Bool)
      (sound : (v w : W) → will_wake v w ≡ true → task v ≡ task w) where
    abbrev pub busy : T → Log T → Log T
    busy value l = record l { sending = some value }

    pub cancels_send-Goes :
        (inner : Shared S) (value : T) (l : Log T)
        → IsSound al task limit inner (system inner true (busy value l))
        → Goes al task limit
            (step task al will_wake (system inner true (busy value l)) cancels_send)
    unfolding step
    cancels_send-Goes inner value l v =
        let items = S.items inner.receivers in
        let held = is_reached (system inner true (busy value l)).memory in
        (
          inner,
          (
            _,
            refl,
            record {
              memory = refl;
              capacity = v.capacity;
              good = record {
                distinct = v.good.distinct;
                count = v.good.count;
                there = λ j.
                    grant-there al task limit law will_wake sound held value l.subs j
                    ∙ v.good.there j;
                number = v.good.number;
                fits = v.good.fits;
                few = v.good.few;
                sends = refl;
                each =
                    Each-map _ _ items
                      (λ j r here (own, h). elim (Bool-cases (r.id == inner.id)) [
                        | inl got ↦
                            rw (law.get-items j inner.receivers, own, got)
                              (Holds-got inner.id value (l.subs j) r got h)
                        | inr missed ↦
                            rw (law.get-items j inner.receivers, own, missed)
                              (Holds-missed inner.id value (l.subs j) r missed h)
                      ])
                      (Each-both _ _ items (Each-own items v.good.distinct) v.good.each);
                tx = nobody;
              };
            },
          ),
        )

    pub polls_send-Goes :
        (inner : Shared S) (value : T) (cx : W) (l : Log T)
        → IsSound al task limit inner (system inner true (busy value l))
        → Goes al task limit
            (step task al will_wake (system inner true (busy value l)) (polls_send cx))
    unfolding step send_poll strong_get set_value load looped
    polls_send-Goes inner value cx l v = elim (Bool-cases (l.receivers == 0)) [
      | inl none_there ↦
          let nothing = length-zero (S.items inner.receivers) v.good.count none_there in
          rw none_there (
            inner,
            (
              _,
              refl,
              record {
                memory = refl;
                capacity = v.capacity;
                good = record {
                  distinct = v.good.distinct;
                  count = v.good.count;
                  there = v.good.there;
                  number = v.good.number;
                  fits = v.good.fits;
                  few = v.good.few;
                  sends = refl;
                  each = rw nothing tt;
                  tx = nobody;
                };
              },
            ),
          )
      | inr some_there ↦
          let f = deliver al inner.id value in
          let x = S.iter_mut f inner.receivers (0, []) in
          let items = law.items-iter_mut f inner.receivers (0, []) in
          let carried = law.iter_mut-visit f inner.receivers (0, []) in
          let (_, counted) = deliver-Delivered al inner.id value (S.items inner.receivers) [] in
          let distinct : IsDistinct (S.items x.0) =
            rw items (IsDistinct-visit f _ (0, []) v.good.distinct) in
          let count : length (S.items x.0) ≡ l.receivers =
            rw items (length-visit f _ (0, []) ∙ v.good.count) in
          let there : (j : ℕ) → (l.subs j).there ≡ is_some (lookup j (S.items x.0)) =
            λ j. v.good.there j ∙ rw items (sym (lookup-visit f j _ (0, []))) in
          let served : Each (Served al task limit l.subs inner.id value x.1.1) (S.items x.0) =
            rw (items, carried)
              (deliver-Served al task limit l.subs inner.id value _ (0, []) v.good.each) in
          let same : x.1.0 ≡ holders inner.id (S.items x.0) = rw (items, carried) counted in
          elim (Bool-cases (x.1.0 == S.len x.0)) [
            | inl all ↦
                let everybody =
                  holders-all inner.id (S.items x.0)
                    (ground (arith, same, law.len-items x.0, all)) in
                rw (some_there, all)
                  (
                    record inner { sender = register will_wake inner.sender cx; receivers = x.0 },
                    (
                      _,
                      refl,
                      record {
                        memory = refl;
                        capacity = v.capacity;
                        good = record {
                          distinct = distinct;
                          count = count;
                          there = there;
                          number = v.good.number;
                          fits = v.good.fits;
                          few = v.good.few;
                          sends = refl;
                          each =
                              Each-map _ _ (S.items x.0)
                                (λ j r here (got, (h, k)). Holds-got inner.id value _ r got h)
                                (Each-both _ _ (S.items x.0) everybody served);
                          tx = nobody;
                        };
                      },
                    ),
                  )
            | inr not_all ↦
                rw (some_there, not_all)
                  (
                    record inner { sender = register will_wake inner.sender cx; receivers = x.0 },
                    (
                      _,
                      refl,
                      record {
                        memory = refl;
                        capacity = v.capacity;
                        good = record {
                          distinct = distinct;
                          count = count;
                          there = there;
                          number = v.good.number;
                          fits = v.good.fits;
                          few = v.good.few;
                          sends = refl;
                          each = Each-map _ _ (S.items x.0) (λ j r here (h, k). h) served;
                          tx = register-SleepsOnlyIf task will_wake sound inner.sender cx (
                            refl,
                            λ e. ground (arith, same, law.len-items x.0, not_all, e),
                            Each-map _ _ (S.items x.0) (λ j r here (h, k). k) served,
                          );
                        };
                      },
                    ),
                  )
          ]
    ]
