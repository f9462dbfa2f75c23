-- ===== src/Broadcast/System/Sends.antt =====
-- The calls of the owner of a broadcast channel's sender while no `send` is under way, each from a
-- sound system.
use unsync.Prelude.{
  ℕ, ◌+◌, ◌<◌, ◌≡◌, refl, sym, ap, ◌∙◌, Bool, true, false, Option, none, some, List, [], ◌∷◌, arith,
  inl, inr, Bool-cases, ◌==◌, length,
}
use unsync.Utils.{Allocator, usize_max}
use unsync.Utils.Sleepers.{nobody, SleepsOnlyIf-never, sleeping-none}
use unsync.BroadRc.{strong_get, set_value, load}
use unsync.Broadcast.Slab.{SlabOf, IsLawful}
use unsync.Broadcast.Slab.Lists.{Each, Each-map}
use unsync.Broadcast.Slab.Keys.{Each-own, Each-both, length-visit, lookup-visit, IsDistinct-visit}
use unsync.Broadcast.{ReceiverState, Shared, bump, bump_message_id, try_send, try_deliver, looped}
use unsync.Broadcast.System.{
  Log, Subscription, calls_try_send, note_started, step, roused, grant, has_room,
}
use unsync.Broadcast.System.Loops.{Before, try_deliver-tried}
use unsync.Broadcast.System.Sound.{IsSound, Holds, Goes, system}

pub length-zero : {A : Type 0} (xs : List A) {n : ℕ} → length xs ≡ n → (n == 0) ≡ true → xs ≡ []
length-zero [] e h = refl
length-zero (x ∷ xs) e h = ground (arith, e)

-- Below the last number, a new message has the next one.
pub bump_message_id-next : (id : ℕ) → id < usize_max → bump_message_id id ≡ id + 1
unfolding bump_message_id
bump_message_id-next id small = ground arith

module _ {T W : Type 0} (al : Allocator) (task : W → ℕ) (limit : Option ℕ) where
  -- Nobody holds a message that is new.
  Holds-new :
      (sender : Bool) (id : ℕ) (value : T) (u : Subscription T) (r : ReceiverState T W)
      → Holds al task limit sender none id u r
      → Holds al task limit sender (some value) (id + 1) u r
  Holds-new sender id value u r h =
      let new : (r.id == id + 1) ≡ false = ground (arith, h.number) in
      record { order = rw new h.order; number = omega (arith, h.number); room = h.room; rx = h.rx }

  module _ {S : SlabOf (ReceiverState T W)} (law : IsLawful S) (will_wake : W → W → Bool)
      (sound : (v w : W) → will_wake v w ≡ true → task v ≡ task w) where
    -- While nothing is being sent, nobody sleeps in a `send`.
    abbrev pub idle : Log T → Log T
    idle l = record l { sending = none }

    pub idle-awake :
        (inner : Shared S) (l : Log T)
        → IsSound al task limit inner (system inner true (idle l))
        → l.tx_asleep ≡ none
    idle-awake inner l v =
        SleepsOnlyIf-never task (λ p. let sends : false ≡ true = p.0 in cc) v.good.tx

    -- A new message is under way, and nobody holds it.
    pub bump-IsSound :
        (inner : Shared S) (value : T) (l : Log T)
        → IsSound al task limit inner (system inner true (idle l))
        → l.bumps < usize_max
        → IsSound al task limit
            (record inner { id = l.bumps + 1 })
            (system (record inner { id = l.bumps + 1 }) true (note_started value l))
    bump-IsSound inner value l v small = record {
      memory = refl;
      capacity = v.capacity;
      good = record {
        distinct = v.good.distinct;
        count = v.good.count;
        there = v.good.there;
        number = refl;
        fits = omega arith;
        few = v.good.few;
        sends = refl;
        each =
            Each-map _ _ (S.items inner.receivers)
              (λ j r here h. Holds-new true l.bumps value (l.subs j) r (rw v.good.number at h))
              v.good.each;
        tx = rw (idle-awake inner l v) nobody;
      };
    }

    pub grant-there :
        (test : ℕ → Bool) (value : T) (subs : ℕ → Subscription T) (j : ℕ)
        → (grant test (some value) subs j).there ≡ (subs j).there
    grant-there test value subs j = elim (Bool-cases (test j)) [
      | inl due ↦ rw due refl
      | inr not_due ↦ rw not_due refl
    ]

    -- Each receiver that is there has its room in the memory.
    Before-has_room :
        (inner : Shared S) (l : Log T) (value : T)
        → IsSound al task limit inner (system inner true (idle l))
        → Each
            (Before al task limit l.subs inner.id value
              (has_room (system inner true (idle l)).memory))
            (S.items inner.receivers)
    Before-has_room inner l value v = Each-both _ _ (S.items inner.receivers) v.good.each (
        Each-map _ _ (S.items inner.receivers)
          (λ j r here own. rw (law.get-items j inner.receivers, own) refl)
          (Each-own (S.items inner.receivers) v.good.distinct))

    pub calls_try_send-Goes :
        (inner : Shared S) (value : T) (l : Log T)
        → IsSound al task limit inner (system inner true (idle l))
        → l.bumps < usize_max
        → Goes al task limit
            (step task al will_wake (system inner true (idle l)) (calls_try_send value))
    unfolding step try_send bump strong_get set_value load looped
    calls_try_send-Goes inner value l v small =
        let next : bump_message_id inner.id ≡ l.bumps + 1 =
          ap bump_message_id v.good.number ∙ bump_message_id-next l.bumps small in
        let room = has_room (system inner true (idle l)).memory in
        elim (Bool-cases (l.receivers == 0)) [
          | inl none_there ↦
              let nothing = length-zero (S.items inner.receivers) v.good.count none_there in
              rw (next, none_there)
                (
                  record inner { id = l.bumps + 1 },
                  (
                    _,
                    refl,
                    record {
                      memory = refl;
                      capacity = v.capacity;
                      good = record {
                        distinct = v.good.distinct;
                        count = v.good.count;
                        there = λ j. grant-there room value l.subs j ∙ v.good.there j;
                        number = refl;
                        fits = omega arith;
                        few = v.good.few;
                        sends = refl;
                        each = rw nothing tt;
                        tx = rw (idle-awake inner l v) nobody;
                      };
                    },
                  ),
                )
          | inr some_there ↦
              let f = try_deliver al value in
              let x = S.iter_mut f inner.receivers (0, []) in
              let items = law.items-iter_mut f inner.receivers (0, []) in
              let carried = law.iter_mut-visit f inner.receivers (0, []) in
              rw (next, some_there)
                (
                  record inner { id = l.bumps + 1; receivers = x.0 },
                  (
                    _,
                    refl,
                    record {
                      memory = refl;
                      capacity = v.capacity;
                      good = record {
                        distinct = rw items (IsDistinct-visit f _ (0, []) v.good.distinct);
                        count = rw items (length-visit f _ (0, []) ∙ v.good.count);
                        there = λ j.
                            grant-there room value (roused task x.1.1 (idle l)).subs j
                            ∙ v.good.there j
                            ∙ rw items (sym (lookup-visit f j _ (0, [])));
                        number = refl;
                        fits = omega arith;
                        few = v.good.few;
                        sends = refl;
                        each =
                            rw (items, carried, sym v.good.number)
                              (try_deliver-tried al task limit l.subs inner.id value _ _ (0, [])
                                (Before-has_room inner l value v));
                        tx = rw (idle-awake inner l v, sleeping-none task x.1.1) nobody;
                      };
                    },
                  ),
                )
        ]
