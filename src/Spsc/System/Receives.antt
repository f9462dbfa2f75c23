-- ===== src/Spsc/System/Receives.antt =====
-- The calls of the receiver, and the drops of the ends, keep what holds of the channel.
use unsync.Prelude.{
  ℕ, ◌≡◌, refl, ◌∙◌, Bool, true, false, Option, none, some, List, [], ◌∷◌, append_assoc, arith,
  is_some, sym,
}
use unsync.Utils.{Allocator, register, wake}
use unsync.Utils.Sleepers.{
  nobody, SleepsOnlyIf-never, sleeping-none, sleeping-wake, register-SleepsOnlyIf,
}
use unsync.BiRc.{get_mut_unchecked, set_value, wake_slot, load, drop}
use unsync.Utils.{pop_front, pop_items, wrapping_sub}
use unsync.Spsc.{Shared, at_capacity, recv_poll, recv_popped, drop_sender, drop_receiver}
use unsync.Spsc.System.{Log, polls_recv, drops_sender, drops_receiver, step}
use unsync.Spsc.System.Sound.{Room, Room-tx, Room-rx, IsSound, Goes, system}

module _ {T W : Type 0} (task : W → ℕ) (room : Option ℕ) (al : Allocator) (will_wake : W → W → Bool)
    (sound : (v w : W) → will_wake v w ≡ true → task v ≡ task w) where
  module _ (tx rx : Option W) (n : ℕ) (u : Bool) where
    abbrev with_items : List T → Shared T W
    with_items items = record {
      tx = tx;
      rx = rx;
      buf = record { items = items; capacity = n };
      unbounded = u;
    }

    Room-pop :
        (r : Option ℕ) (value : T) (items : List T)
        → Room r (with_items (value ∷ items))
        → Room r (with_items items)
    Room-pop none value items h = h
    Room-pop (some m) value items (h, c, f) = (h, c, omega arith)

    recv_poll-items :
        (items : List T) (l : Log T) (cx : W) (a : Bool)
        → IsSound task room (with_items items) (system task room (with_items items) a true l)
        → Goes task room
            (step task al will_wake (system task room (with_items items) a true l) (polls_recv cx))
    unfolding step recv_poll get_mut_unchecked load pop_front pop_items recv_popped set_value
        wake_slot at_capacity
    recv_poll-items (value ∷ items) l cx true v = (
      with_items items,
      (
        _,
        refl,
        record {
          memory = refl;
          order = v.order ∙ sym (append_assoc l.received (value ∷ []) items);
          capacity = Room-pop room value items v.capacity;
          sending = v.sending;
          tx = rw (sleeping-wake task v.tx) nobody;
          rx = nobody;
        },
      ),
    )
    recv_poll-items (value ∷ items) l cx false v = (
      with_items items,
      (
        _,
        refl,
        record {
          memory = refl;
          order = v.order ∙ sym (append_assoc l.received (value ∷ []) items);
          capacity = Room-pop room value items v.capacity;
          sending = v.sending;
          tx = rw (sleeping-wake task v.tx) nobody;
          rx = nobody;
        },
      ),
    )
    recv_poll-items [] l cx true v = (
      _,
      (
        _,
        refl,
        record {
          memory = refl;
          order = v.order;
          capacity = Room-rx room (with_items []) (register will_wake rx cx) v.capacity;
          sending = v.sending;
          tx = rw (sleeping-wake task v.tx) nobody;
          rx = register-SleepsOnlyIf task will_wake sound rx cx (refl, refl, refl);
        },
      ),
    )
    recv_poll-items [] l cx false v = (
      _,
      (
        _,
        refl,
        record {
          memory = refl;
          order = v.order;
          capacity = Room-rx room (with_items []) none v.capacity;
          sending = v.sending;
          tx = v.tx;
          rx = nobody;
        },
      ),
    )

  module _ (inner : Shared T W) (l : Log T) where
    pub recv_poll-Goes :
        (cx : W) (a : Bool)
        → IsSound task room inner (system task room inner a true l)
        → Goes task room (step task al will_wake (system task room inner a true l) (polls_recv cx))
    recv_poll-Goes cx a v =
        recv_poll-items inner.tx inner.rx inner.buf.capacity inner.unbounded inner.buf.items l cx a
          v

    pub drop_sender-Goes :
        (b : Bool)
        → is_some l.sending ≡ false
        → IsSound task room inner (system task room inner true b l)
        → Goes task room (step task al will_wake (system task room inner true b l) drops_sender)
    unfolding step drop_sender get_mut_unchecked load set_value wake_slot drop wrapping_sub
        at_capacity
    drop_sender-Goes true idle v = (
      record inner { rx = none },
      (
        _,
        refl,
        record {
          memory = refl;
          order = v.order;
          capacity = Room-rx room inner none v.capacity;
          sending = rw idle refl;
          tx =
              rw (SleepsOnlyIf-never task (λ h. cc) v.tx, sleeping-none task (wake inner.rx []))
                nobody;
          rx = rw (sleeping-wake task v.rx) nobody;
        },
      ),
    )
    drop_sender-Goes false idle v = (
      record inner { rx = none },
      (
        _,
        refl,
        record {
          memory = refl;
          order = v.order;
          capacity = Room-rx room inner none v.capacity;
          sending = rw idle refl;
          tx =
              rw (SleepsOnlyIf-never task (λ h. cc) v.tx, sleeping-none task (wake inner.rx []))
                nobody;
          rx = rw (sleeping-wake task v.rx) nobody;
        },
      ),
    )

    pub drop_receiver-Goes :
        (a : Bool)
        → IsSound task room inner (system task room inner a true l)
        → Goes task room (step task al will_wake (system task room inner a true l) drops_receiver)
    unfolding step drop_receiver get_mut_unchecked load set_value wake_slot drop wrapping_sub
        at_capacity
    drop_receiver-Goes true v = (
      record inner { tx = none },
      (
        _,
        refl,
        record {
          memory = refl;
          order = v.order;
          capacity = Room-tx room inner none v.capacity;
          sending = v.sending;
          tx = rw (sleeping-wake task v.tx) nobody;
          rx = nobody;
        },
      ),
    )
    drop_receiver-Goes false v = (
      record inner { tx = none },
      (
        _,
        refl,
        record {
          memory = refl;
          order = v.order;
          capacity = Room-tx room inner none v.capacity;
          sending = v.sending;
          tx = rw (sleeping-wake task v.tx) nobody;
          rx = nobody;
        },
      ),
    )
