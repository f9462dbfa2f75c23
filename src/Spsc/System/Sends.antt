-- ===== src/Spsc/System/Sends.antt =====
-- The calls of the sender keep what holds of the channel.
use unsync.Prelude.{
  ℕ, ◌≡◌, refl, Bool, true, false, not, ◌||◌, Option, none, some, [], ◌∷◌, ◌++◌, append_assoc, inl,
  inr, Bool-cases, is_some,
}
use unsync.Utils.{Allocator, push_back, register, wake}
use unsync.Utils.Sleepers.{
  sleeping, nobody, sleeping-none, SleepsOnlyIf-never, sleeping-wake, register-SleepsOnlyIf,
}
use unsync.BiRc.{get_mut_unchecked, set_value, wake_slot, load}
use unsync.Spsc.{Shared, at_capacity, try_send, send_poll, send_with, take_value, push}
use unsync.Spsc.System.{Log, System, calls_try_send, polls_send, step}
use unsync.Spsc.System.Sound.{Room-push, Room-tx, IsSound, Goes, system}

module _ {T W : Type 0} (task : W → ℕ) (room : Option ℕ) (al : Allocator) (will_wake : W → W → Bool)
    (sound : (v w : W) → will_wake v w ≡ true → task v ≡ task w) where
  module _ (inner : Shared T W) (l : Log T) where
    -- What there is after a push: the value queued, and the receiver awake.
    pushed : T → Option T → Shared T W × System T W
    pushed value held =
        let inner' : Shared T W = record inner { buf = push_back al inner.buf value } in
        (
          inner',
          system task room inner' true true (record l {
            sending = held;
            tx_asleep = none;
            rx_asleep = sleeping task l.rx_asleep (wake inner.rx []);
            accepted = l.accepted ++ (value ∷ []);
          }),
        )

    or_true-right : (b : Bool) → (b || true) ≡ true
    or_true-right true = refl
    or_true-right false = refl

    pushed-IsSound :
        (value : T) (held : Option T)
        → at_capacity inner ≡ false
        → IsSound task room inner (system task room inner true true l)
        → let (i, s) = pushed value held in IsSound task room i s
    unfolding pushed push_back
    pushed-IsSound value held free v = record {
      memory = refl;
      order = rw v.order (append_assoc l.received inner.buf.items (value ∷ []));
      capacity = Room-push room al inner value free v.capacity;
      sending = or_true-right (not (is_some held));
      tx = nobody;
      rx = rw (sleeping-wake task v.rx) nobody;
    }

  module _ (inner : Shared T W) (l : Log T) where
    pub try_send-Goes :
        (value : T) (b : Bool)
        → is_some l.sending ≡ false
        → IsSound task room inner (system task room inner true b l)
        → Goes task room
            (step task al will_wake (system task room inner true b l) (calls_try_send value))
    unfolding step try_send get_mut_unchecked load push set_value wake_slot pushed
    try_send-Goes value false idle v = (inner, (_, refl, v))
    try_send-Goes value true idle v = elim (Bool-cases (at_capacity inner)) [
      | inl full ↦ rw full (inner, (_, refl, v))
      | inr free ↦
          let awake : l.tx_asleep ≡ none = SleepsOnlyIf-never task (λ h. cc) v.tx in
          rw free (
            _,
            (
              _,
              rw (awake, sleeping-none task (wake inner.rx [])) refl,
              pushed-IsSound inner l value l.sending free v,
            ),
          )
    ]

    -- What a pending `send` leaves behind: it is registered.
    parked-IsSound :
        (value : T) (cx : W)
        → at_capacity inner ≡ true
        → IsSound task room inner
            (system task room inner true true (record l { sending = some value }))
        → IsSound task room
            (record inner { tx = register will_wake inner.tx cx })
            (system task room
              (record inner { tx = register will_wake inner.tx cx })
              true
              true
              (record l { sending = some value; tx_asleep = some (task cx) }))
    unfolding at_capacity
    parked-IsSound value cx full v = record {
      memory = refl;
      order = v.order;
      capacity = Room-tx room inner (register will_wake inner.tx cx) v.capacity;
      sending = refl;
      tx = register-SleepsOnlyIf task will_wake sound inner.tx cx (full, refl, refl);
      rx = v.rx;
    }

    pub send_poll-Goes :
        (value : T) (cx : W) (b : Bool)
        → IsSound task room inner
            (system task room inner true b (record l { sending = some value }))
        → Goes task room (
            step task al will_wake
              (system task room inner true b (record l { sending = some value }))
              (polls_send cx))
    unfolding step send_poll get_mut_unchecked load send_with take_value push set_value wake_slot
        pushed
    send_poll-Goes value cx false v = (
      _,
      (
        _,
        refl,
        record {
          memory = refl;
          order = v.order;
          capacity = Room-tx room inner none v.capacity;
          sending = refl;
          tx = nobody;
          rx = v.rx;
        },
      ),
    )
    send_poll-Goes value cx true v = elim (Bool-cases (at_capacity inner)) [
      | inl full ↦ rw full (_, (_, refl, parked-IsSound value cx full v))
      | inr free ↦
          rw free (
            _,
            (_, refl, pushed-IsSound inner (record l { sending = some value }) value none free v),
          )
    ]
