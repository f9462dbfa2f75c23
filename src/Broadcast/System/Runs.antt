-- ===== src/Broadcast/System/Runs.antt =====
-- Whatever the owners of the ends of a broadcast channel do, in any order.
use unsync.Prelude.{
  ℕ, ◌≡◌, ◌<◌, refl, sym, subst, ◌∙◌, Bool, true, false, Option, none, some, ltb, arith, inl, inr,
  Bool-cases, ◌==◌,
}
use unsync.Utils.{Allocator, usize_max}
use unsync.Utils.Sleepers.{nobody}
use unsync.BroadRc.{new}
use unsync.Broadcast.Slab.{SlabOf, IsLawful}
use unsync.Broadcast.{ReceiverState, Shared, World, channel, unbounded, opened}
use unsync.Broadcast.System.{
  Log, System, Call, subscribes, calls_try_send, calls_send, polls_send, cancels_send, polls_recv,
  cancels_recv, drops_sender, drops_receiver, admits, opened_by, step, Reach, begins, goes,
}
use unsync.Broadcast.System.Sound.{IsSound, Goes, system}
use unsync.Broadcast.System.Subscribes.{subscribes-Goes}
use unsync.Broadcast.System.Sends.{calls_try_send-Goes}
use unsync.Broadcast.System.Starts.{calls_send-Goes}
use unsync.Broadcast.System.Sending.{polls_send-Goes, cancels_send-Goes}
use unsync.Broadcast.System.Receives.{polls_recv-Goes, cancels_recv-Goes}
use unsync.Broadcast.System.Drops.{drops_sender-Goes, drops_receiver-Goes}

module _ {T W : Type 0} (al : Allocator) (task : W → ℕ) (limit : Option ℕ)
    {S : SlabOf (ReceiverState T W)} (law : IsLawful S) (will_wake : W → W → Bool)
    (sound : (v w : W) → will_wake v w ≡ true → task v ≡ task w) where
  abbrev sending : Option T → Log T → Log T
  sending o l = record l { sending = o }

  below : (n : ℕ) → ltb n usize_max ≡ true → n < usize_max
  below n h = ground (arith, h)

  system-Goes :
      (inner : Shared S) (a : Bool) (o : Option T) (l : Log T) (c : Call T W)
      → admits (system inner a (sending o l)) c ≡ true
      → IsSound al task limit inner (system inner a (sending o l))
      → Goes al task limit (step task al will_wake (system inner a (sending o l)) c)
  unfolding admits
  system-Goes inner true none l subscribes h v =
      subscribes-Goes al task limit law will_wake sound inner l v (below l.receivers h)
  system-Goes inner true (some x) l subscribes h v = cc
  system-Goes inner false o l subscribes h v = cc
  system-Goes inner true none l (calls_try_send value) h v =
      calls_try_send-Goes al task limit law will_wake sound inner value l v (below l.bumps h)
  system-Goes inner true (some x) l (calls_try_send value) h v = cc
  system-Goes inner false o l (calls_try_send value) h v = cc
  system-Goes inner true none l (calls_send value cx) h v =
      calls_send-Goes al task limit law will_wake sound inner value cx l v (below l.bumps h)
  system-Goes inner true (some x) l (calls_send value cx) h v = cc
  system-Goes inner false o l (calls_send value cx) h v = cc
  system-Goes inner a none l (polls_send cx) h v = cc
  system-Goes inner true (some value) l (polls_send cx) h v =
      polls_send-Goes al task limit law will_wake sound inner value cx l v
  system-Goes inner false (some value) l (polls_send cx) h v =
      let there : false ≡ true = v.good.sends in cc
  system-Goes inner a none l cancels_send h v = cc
  system-Goes inner true (some value) l cancels_send h v =
      cancels_send-Goes al task limit law will_wake sound inner value l v
  system-Goes inner false (some value) l cancels_send h v =
      let there : false ≡ true = v.good.sends in cc
  system-Goes inner a o l (polls_recv k cx) h v =
      polls_recv-Goes al task limit law will_wake sound inner a (sending o l) k cx v h
  system-Goes inner a o l (cancels_recv k) h v =
      cancels_recv-Goes al task limit law will_wake sound inner a (sending o l) k v
  system-Goes inner true none l drops_sender h v =
      drops_sender-Goes al task limit law will_wake sound inner l v
  system-Goes inner true (some x) l drops_sender h v = cc
  system-Goes inner false o l drops_sender h v = cc
  system-Goes inner a o l (drops_receiver k) h v =
      drops_receiver-Goes al task limit law will_wake sound inner a (sending o l) k v h

  admits-memory :
      (inner : Shared S) (s : System S) (c : Call T W)
      → admits s c ≡ admits (system inner s.sender s.log) c
  unfolding admits
  admits-memory inner s subscribes = refl
  admits-memory inner s (calls_try_send value) = refl
  admits-memory inner s (calls_send value cx) = refl
  admits-memory inner s (polls_send cx) = refl
  admits-memory inner s cancels_send = refl
  admits-memory inner s (polls_recv k cx) = refl
  admits-memory inner s (cancels_recv k) = refl
  admits-memory inner s drops_sender = refl
  admits-memory inner s (drops_receiver k) = refl

  -- Where the slab is as documented and `will_wake` holds only of wakers of one task, every call on a
  -- sound broadcast channel that ownership admits, while fewer than `usize::MAX` messages were sent
  -- and as many receivers are there, returns: it does not panic or abort, and touches no memory that
  -- is gone. It keeps what holds of the channel.
  pub broadcast_call-Goes :
      (inner : Shared S) (s : System S) (c : Call T W)
      → admits s c ≡ true
      → IsSound al task limit inner s
      → (inner' : Shared S) × ((t : System S) × (step task al will_wake s c ≡ some t)
          × IsSound al task limit inner' t)
  broadcast_call-Goes inner s c h v =
      subst (λ m. Goes al task limit (step task al will_wake (record s { memory = m }) c))
        (sym v.memory)
        (system-Goes inner s.sender s.log.sending s.log c (sym (admits-memory inner s c) ∙ h)
          (record { memory = refl; capacity = v.capacity; good = v.good }))

  abbrev SoundIf : Option (System S) → Type 0
  SoundIf none = Unit {0}
  SoundIf (some s) = (inner : Shared S) × IsSound al task limit inner s

  start-IsSound :
      {s : System S}
      → Reach task al will_wake (opened_by (opened limit)) s
      → (inner : Shared S) × IsSound al task limit inner s
  unfolding new
  start-IsSound begins = (
    record { id = 0; sender = none; receivers = S.new; capacity = limit },
    record {
      memory = refl;
      capacity = refl;
      good = record {
        distinct = rw law.items-new tt;
        count = rw law.items-new refl;
        there = λ j. rw law.items-new refl;
        number = refl;
        fits = omega arith;
        few = omega arith;
        sends = refl;
        each = rw law.items-new tt;
        tx = nobody;
      };
    },
  )
  start-IsSound (goes {t} c r h e) =
      let (i, before) = start-IsSound r in
      let (i', (u, e', after)) = broadcast_call-Goes i t c h before in
      subst SoundIf (sym e' ∙ e) (i', after)

module _ {T W : Type 0} {S : SlabOf (ReceiverState T W)} where
  started : (n : ℕ) {w : World S} → channel n ≡ some w → opened (some n) ≡ w
  unfolding channel
  started n e = elim (Bool-cases (n == 0)) [
    | inl none_left ↦ let refused : none ≡ some _ = rw none_left at e in cc
    | inr h ↦ let made : some (opened (some n)) ≡ some _ = rw h at e in cc
  ]

  pub channel-room : (n : ℕ) {w : World S} → channel n ≡ some w → 0 < n
  unfolding channel
  channel-room n e = ground (arith, e)

module _ {T W : Type 0} (al : Allocator) (task : W → ℕ) {S : SlabOf (ReceiverState T W)}
    (law : IsLawful S) (will_wake : W → W → Bool)
    (sound : (v w : W) → will_wake v w ≡ true → task v ≡ task w) where
  -- Where the slab is as documented and `will_wake` holds only of wakers of one task, in every state
  -- that the calls of the owners of a channel of a capacity can lead to, with fewer than `usize::MAX`
  -- messages and receivers: what a receiver received and what its buffer holds are the messages it is due, in
  -- order (those of each `send` that was ready while it was there, of each `try_send` that found room in
  -- its buffer, and of each `send` that was dropped when it had reached it) and
  -- then the message of a `send` under way if it holds that already; its buffer has the room that was
  -- allocated at first and never holds more; it sleeps only with an empty buffer while the sender is
  -- there, and the sender only while a receiver that does not hold the message has no room, each with
  -- its waker registered; and the memory is there as long as one of the ends is.
  pub broadcast-IsSound :
      (n : ℕ) {w : World S} {s : System S}
      → channel n ≡ some w
      → Reach task al will_wake (opened_by w) s
      → (inner : Shared S) × IsSound al task (some n) inner s
  broadcast-IsSound n {s} e r =
      start-IsSound al task (some n) law will_wake sound
        (subst (λ w. Reach task al will_wake (opened_by w) s) (sym (started n e)) r)

  -- Under the same conditions the same holds of an unbounded channel, whose buffers have no bound.
  pub broadcast_unbounded-IsSound :
      {s : System S}
      → Reach task al will_wake (opened_by unbounded) s
      → (inner : Shared S) × IsSound al task none inner s
  unfolding unbounded
  broadcast_unbounded-IsSound r = start-IsSound al task none law will_wake sound r
