-- ===== src/Spsc/System/Runs.antt =====
-- Whatever the owners of the two ends do, in any order.
use unsync.Prelude.{
  sym, subst, ◌∙◌, ℕ, ◌<◌, ◌≡◌, refl, Bool, true, false, ◌&&◌, Option, none, some, [], arith, inl,
  inr, Bool-cases, is_some, ◌==◌, length,
}
use unsync.Utils.{Allocator, len, with_capacity}
use unsync.Utils.Sleepers.{nobody, SleepsOnlyIf-map, SleepsOnlyIf-apart}
use unsync.BiRc.{World, new}
use unsync.Spsc.{Shared, at_capacity, channel, unbounded}
use unsync.Spsc.System.{
  Log, System, Call, calls_try_send, calls_send, polls_send, cancels_send, polls_recv, cancels_recv,
  drops_sender, drops_receiver, admits, step, Reach, begins, goes, opened,
}
use unsync.Spsc.System.Sound.{Room, IsSound, Goes, Goes-memory, system}
use unsync.Spsc.System.Sends.{try_send-Goes, send_poll-Goes}
use unsync.Spsc.System.Receives.{recv_poll-Goes, drop_sender-Goes, drop_receiver-Goes}

module _ {T W : Type 0} (task : W → ℕ) (al : Allocator) (will_wake : W → W → Bool)
    (sound : (v w : W) → will_wake v w ≡ true → task v ≡ task w) where
  module _ (room : Option ℕ) where
    polls_send-Goes :
        (inner : Shared T W) (a b : Bool) (l : Log T) (value : Option T) (cx : W)
        → is_some value ≡ true
        → IsSound task room inner (system task room inner a b (record l { sending = value }))
        → Goes task room (
            step task al will_wake
              (system task room inner a b (record l { sending = value }))
              (polls_send cx))
    polls_send-Goes inner a b l none cx h v = cc
    polls_send-Goes inner false b l (some value) cx h v = let gone = v.sending in cc
    polls_send-Goes inner true b l (some value) cx h v =
        send_poll-Goes task room al will_wake sound inner l value cx b v

    system-Goes :
        (inner : Shared T W) (a b : Bool) (l : Log T) (c : Call T W)
        → admits (system task room inner a b l) c ≡ true
        → IsSound task room inner (system task room inner a b l)
        → Goes task room (step task al will_wake (system task room inner a b l) c)
    unfolding admits step
    system-Goes inner false b l (calls_try_send value) h v = cc
    system-Goes inner true b l (calls_try_send value) h v =
        try_send-Goes task room al will_wake sound inner l value b (ground arith) v
    system-Goes inner false b l (calls_send value) h v = cc
    system-Goes inner true b l (calls_send value) h v = (
      inner,
      (
        _,
        refl,
        record {
          memory = refl;
          order = v.order;
          capacity = v.capacity;
          sending = refl;
          tx = SleepsOnlyIf-map task (λ (f, g, i). (f, g, refl)) v.tx;
          rx = v.rx;
        },
      ),
    )
    system-Goes inner a b l (polls_send cx) h v = polls_send-Goes inner a b l l.sending cx h v
    system-Goes inner a b l cancels_send h v = (
      inner,
      (
        _,
        refl,
        record {
          memory = refl;
          order = v.order;
          capacity = v.capacity;
          sending = refl;
          tx = nobody;
          rx = v.rx;
        },
      ),
    )
    system-Goes inner a false l (polls_recv cx) h v = cc
    system-Goes inner a true l (polls_recv cx) h v =
        recv_poll-Goes task room al will_wake sound inner l cx a v
    system-Goes inner a b l cancels_recv h v = (
      inner,
      (
        _,
        refl,
        record {
          memory = refl;
          order = v.order;
          capacity = v.capacity;
          sending = v.sending;
          tx = v.tx;
          rx = nobody;
        },
      ),
    )
    system-Goes inner false b l drops_sender h v = cc
    system-Goes inner true b l drops_sender h v =
        drop_sender-Goes task room al will_wake sound inner l b (ground arith) v
    system-Goes inner a false l drops_receiver h v = cc
    system-Goes inner a true l drops_receiver h v =
        drop_receiver-Goes task room al will_wake sound inner l a v

    admits-memory :
        (inner : Shared T W) (s : System T W) (c : Call T W)
        → admits s c ≡ admits (system task room inner s.sender s.receiver s.log) c
    unfolding admits
    admits-memory inner s (calls_try_send value) = refl
    admits-memory inner s (calls_send value) = refl
    admits-memory inner s (polls_send cx) = refl
    admits-memory inner s cancels_send = refl
    admits-memory inner s (polls_recv cx) = refl
    admits-memory inner s cancels_recv = refl
    admits-memory inner s drops_sender = refl
    admits-memory inner s drops_receiver = refl

    -- Where `will_wake` holds only of wakers of one task, every call on a sound channel that ownership
    -- admits returns: it does not panic, and touches no memory that is
    -- gone. It keeps what holds of the channel.
    pub step-Goes :
        (inner : Shared T W) (s : System T W) (c : Call T W)
        → admits s c ≡ true
        → IsSound task room inner s
        → Goes task room (step task al will_wake s c)
    step-Goes inner s c h v =
        Goes-memory task room (λ t. step task al will_wake t c) inner s v
          (system-Goes inner s.sender s.receiver s.log c (sym (admits-memory inner s c) ∙ h))

    abbrev SoundIf : Option (System T W) → Type 0
    SoundIf none = Unit {0}
    SoundIf (some s) = (inner : Shared T W) × IsSound task room inner s

    Reach-Sound :
        {s t : System T W} (inner : Shared T W)
        → IsSound task room inner s
        → Reach task al will_wake s t
        → (inner : Shared T W) × IsSound task room inner t
    Reach-Sound inner v begins = (inner, v)
    Reach-Sound inner v (goes {t} c r h e) =
        let (i, before) = Reach-Sound inner v r in
        let (i', (u, e', after)) = step-Goes i t c h before in
        subst SoundIf (sym e' ∙ e) (i', after)

  abbrev SoundFrom : ℕ → Option (World (Shared T W) W) → Type 0
  SoundFrom n none = Unit {0}
  SoundFrom n (some w) =
      (0 < n) × ((inner : Shared T W) × IsSound task (some (al.with_capacity n)) inner (opened w))

  channel-Sound : (n : ℕ) (x : Option (World (Shared T W) W)) → channel al n ≡ x → SoundFrom n x
  unfolding channel new with_capacity at_capacity len
  channel-Sound n x e = subst (SoundFrom n) e (elim (Bool-cases (n == 0)) [
    | inl h ↦ rw h tt
    | inr h ↦ rw h (
      ground arith,
      (
        _,
        record {
          memory = refl;
          order = refl;
          capacity = (refl, refl, omega arith);
          sending = refl;
          tx = nobody;
          rx = nobody;
        },
      ),
    )
  ])

  -- Where `will_wake` holds only of wakers of one task, and however the owners of the ends of a
  -- channel of capacity `n` use them: what was accepted for
  -- sending is what was received and behind it what is in the buffer, in that order; the buffer
  -- never grows beyond what was allocated for `n`; the memory is there as long as one of the ends
  -- is; a task sleeps in `recv` only while the buffer is empty and the sender is there, and in
  -- `send` only while the buffer is full and the receiver is there, and then its waker is
  -- registered.
  pub channel-IsSound :
      (n : ℕ) (w : World (Shared T W) W)
      → channel al n ≡ some w
      → {s : System T W} → Reach task al will_wake (opened w) s
      → (inner : Shared T W) × IsSound task (some (al.with_capacity n)) inner s
  channel-IsSound n w h r =
      let (some_room, (inner, v)) = channel-Sound n (some w) h in
      Reach-Sound (some (al.with_capacity n)) inner v r

  -- On the same condition, the same holds of an unbounded channel, but that its buffer grows.
  pub unbounded-IsSound :
      {s : System T W}
      → Reach task al will_wake (opened unbounded) s
      → (inner : Shared T W) × IsSound task none inner s
  unfolding unbounded new at_capacity len
  unbounded-IsSound r =
      Reach-Sound none _
        (record {
          memory = refl;
          order = refl;
          capacity = refl;
          sending = refl;
          tx = nobody;
          rx = nobody;
        })
        r

  full-nonempty :
      {A A' B B' : Type 0} (n : ℕ) (inner : Shared T W)
      → 0 < n
      → Room (some (al.with_capacity n)) inner
      → ¬ (((at_capacity inner ≡ true) × A × A') × ((inner.buf.items ≡ []) × B × B'))
  unfolding at_capacity len
  full-nonempty n inner some_room (u, c, l) ((full, a, a'), (empty, b, b')) =
      let enough = al.with_capacity-ge n in
      let short : length inner.buf.items ≡ 0 = rw empty refl in
      let full' : (inner.buf.capacity == length inner.buf.items) ≡ true = ground arith in
      ground arith

  -- On that condition, the two ends of a channel with a capacity never sleep at the same time, each
  -- waiting for the other.
  pub channel-wakeful :
      (n : ℕ) (w : World (Shared T W) W)
      → channel al n ≡ some w
      → {s : System T W} → Reach task al will_wake (opened w) s
      → (is_some s.log.tx_asleep && is_some s.log.rx_asleep) ≡ false
  channel-wakeful n w h {s} r =
      let (inner, v) = channel-IsSound n w h r in
      let (some_room, start) = channel-Sound n (some w) h in
      SleepsOnlyIf-apart task (full-nonempty n inner some_room v.capacity) v.tx v.rx
