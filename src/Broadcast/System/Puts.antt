-- ===== src/Broadcast/System/Puts.antt =====
-- What a call of one receiver of a broadcast channel does to it and to its part of the log.
use unsync.Prelude.{
  ℕ, ◌≡◌, refl, sym, ◌∙◌, Bool, true, false, Option, none, some, is_some, List, [], ◌∷◌, arith, inl,
  inr, Bool-cases, ◌==◌, length, returns,
}
use unsync.Utils.{Allocator}
use unsync.Utils.Sleepers.{nobody, SleepsOnlyIf-never}
use unsync.BroadRc.{weak_get, set_value, load}
use unsync.BroadRc.Handles.{shared_by}
use unsync.Broadcast.Slab.{SlabOf, IsLawful, lookup}
use unsync.Broadcast.Slab.Lists.{
  Each-lookup, Each-replace, IsDistinct-replace, length-replace, lookup-replace,
}
use unsync.Broadcast.{ReceiverState, Shared}
use unsync.Broadcast.System.{Log, Subscription, alter}
use unsync.Broadcast.System.Loops.{heard, Holds-heard}
use unsync.Broadcast.System.Sound.{IsSound, Good, Holds, system}

-- While a receiver is there, its access finds the memory, and tells whether the sender is there.
pub weak_get-shared_by :
    {V : Type 0} (v : V) (a : Bool) (n : ℕ)
    → (n == 0) ≡ false
    → weak_get (shared_by v (record { sender = a; receivers = n }))
      ≡ returns (v, a) (shared_by v (record { sender = a; receivers = n }))
unfolding weak_get load
weak_get-shared_by v true n h = refl
weak_get-shared_by v false n h = rw h refl

pub set_value-shared_by :
    {V : Type 0} (v w : V) (a : Bool) (n : ℕ)
    → (n == 0) ≡ false
    → set_value w (shared_by v (record { sender = a; receivers = n }))
      ≡ returns tt (shared_by w (record { sender = a; receivers = n }))
unfolding set_value load
set_value-shared_by v w true n h = refl
set_value-shared_by v w false n h = rw h refl

module _ {A : Type 0} where
  pub is_some-some : (o : Option A) → is_some o ≡ true → (a : A) × (o ≡ some a)
  is_some-some none h = cc
  is_some-some (some a) h = (a, refl)

  -- Where something is found there is at least one item.
  pub lookup-some :
      (k : ℕ) (xs : List (ℕ × A)) {a : A} {n : ℕ}
      → lookup k xs ≡ some a
      → length xs ≡ n
      → (n == 0) ≡ false
  lookup-some k [] e h = cc
  lookup-some k (x ∷ xs) e h = ground (arith, h)

module _ {T W : Type 0} (al : Allocator) (task : W → ℕ) (limit : Option ℕ) where
  module _ {S : SlabOf (ReceiverState T W)} (law : IsLawful S) (will_wake : W → W → Bool)
      (sound : (v w : W) → will_wake v w ≡ true → task v ≡ task w) where
    -- Without a sender nobody sleeps in a `send`.
    pub tx-gone :
        (inner : Shared S) (l : Log T)
        → IsSound al task limit inner (system inner false l)
        → l.tx_asleep ≡ none
    tx-gone inner l v =
        SleepsOnlyIf-never task (λ p. let sends = v.good.sends in ground (arith, p)) v.good.tx

    -- A call of one receiver `k` that leaves `r` in its place, with what it does to its log, and
    -- after which nobody sleeps in a `send`.
    module _ (inner : Shared S) (a : Bool) (l : Log T) (k : ℕ) (old : ReceiverState T W)
        (v : IsSound al task limit inner (system inner a l))
        (own : lookup k (S.items inner.receivers) ≡ some old) where
      pub old-Holds : Holds al task limit a l.sending inner.id (l.subs k) old
      old-Holds =
          Each-lookup (λ j r. Holds al task limit a l.sending inner.id (l.subs j) r) k old
            (S.items inner.receivers) own v.good.each

      pub some_there : (l.receivers == 0) ≡ false
      some_there = lookup-some k (S.items inner.receivers) own v.good.count

      abbrev pub put : ReceiverState T W → Shared S
      put r = record inner { receivers = S.put k r inner.receivers }

      abbrev pub noted : (Subscription T → Subscription T) → List W → Option ℕ → Log T
      noted f ws tx = record l { tx_asleep = tx; subs = alter k f (heard al task limit l.subs ws) }

      pub put-Good :
          (r : ReceiverState T W) (f : Subscription T → Subscription T) (ws : List W)
          {tx : Option ℕ}
          → tx ≡ none
          → ((s : Subscription T) → (f s).there ≡ s.there)
          → Holds al task limit a l.sending inner.id (f (heard al task limit l.subs ws k)) r
          → Good al task limit a inner.id inner.sender (noted f ws tx) (S.items (put r).receivers)
      put-Good r f ws e t h =
          let items = law.items-put k r inner.receivers in
          record {
            distinct = rw items (IsDistinct-replace k r _ v.good.distinct);
            count = rw items (length-replace k r _ ∙ v.good.count);
            there = λ j. rw items (elim (Bool-cases (k == j)) [
              | inl here ↦ rw here (
                  t (heard al task limit l.subs ws j)
                  ∙ v.good.there j
                  ∙ sym (lookup-replace j k r _))
              | inr other ↦ rw other (v.good.there j ∙ sym (lookup-replace j k r _))
            ]);
            number = v.good.number;
            fits = v.good.fits;
            few = v.good.few;
            sends = v.good.sends;
            each = rw items (
                Each-replace (λ j c. Holds al task limit a l.sending inner.id (l.subs j) c) _ k r _
                  v.good.distinct
                  (λ j c other h. rw other (Holds-heard al task limit l.subs j ws h))
                  (let self : (k == k) ≡ true = ground arith in rw self h) v.good.each);
            tx = rw e nobody;
          }
