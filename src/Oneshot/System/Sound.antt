-- ===== src/Oneshot/System/Sound.antt =====
-- A oneshot channel with its owners is sound, and each call keeps it so.
use unsync.Prelude.{
  ℕ, ◌≤◌, ◌≡◌, refl, sym, ◌∙◌, Bool, true, false, Option, none, some, List, [], ◌∷◌, ◌++◌,
  append-nil, arith, length,
}
use unsync.Utils.{register, wake, wrapping_sub}
use unsync.Utils.Sleepers.{SleepsOnlyIf, nobody, sleeping-wake, register-SleepsOnlyIf}
use unsync.BiRc.{get_mut_unchecked, set_value, wake_slot, load, drop}
use unsync.BiRc.Ends.{shared_by}
use unsync.Oneshot.{Shared, send, send_value, poll, poll_with, drop_end}
use unsync.Oneshot.System.{Log, System, calls_send, polls, drops_sender, drops_receiver, step}

module _ {T : Type 0} where
  abbrev pub buffered : Option T → List T
  buffered none = []
  buffered (some value) = value ∷ []

  -- While the sender is there nothing was sent, and never more than one message.
  abbrev pub AtMostOne : Bool → List T → Type 0
  AtMostOne true accepted = accepted ≡ []
  AtMostOne false accepted = length accepted ≤ 1

  append-nil-both : (xs ys : List T) → xs ++ ys ≡ [] → (xs ≡ []) × (ys ≡ [])
  append-nil-both [] ys h = (refl, h)
  append-nil-both (x ∷ xs) ys h = cc

  AtMostOne-weaken : (a : Bool) (accepted : List T) → AtMostOne a accepted → length accepted ≤ 1
  AtMostOne-weaken true accepted h = rw h (omega arith)
  AtMostOne-weaken false accepted h = h

module _ {T W : Type 0} where
  module _ (task : W → ℕ) where
    -- `inner` is what the ends share, or what they shared when the last of them was dropped.
    pub record IsSound (inner : Shared T W) (s : System T W) : Type 0 where
      pub memory : s.memory ≡ shared_by inner s.sender s.receiver
      pub order : s.log.accepted ≡ s.log.received ++ buffered inner.buf
      pub once : AtMostOne s.sender s.log.accepted
      pub rx :
          SleepsOnlyIf task
            ((inner.buf ≡ none) × (s.sender ≡ true) × (s.receiver ≡ true))
            inner.waker
            s.log.asleep

    abbrev pub Goes : Option (System T W) → Type 0
    Goes x = (inner : Shared T W) × ((t : System T W) × (x ≡ some t) × IsSound inner t)

    abbrev pub system : Shared T W → Bool → Bool → Log T → System T W
    system inner a b l = record { memory = shared_by inner a b; sender = a; receiver = b; log = l }

    abbrev pub shared : Option W → Option T → Shared T W
    shared waker buf = record { waker = waker; buf = buf }

    module _ (will_wake : W → W → Bool)
        (sound : (v w : W) → will_wake v w ≡ true → task v ≡ task w) where
      pub send-Goes :
          (inner : Shared T W) (value : T) (b : Bool) (l : Log T)
          → IsSound inner (system inner true b l)
          → Goes (step task will_wake (system inner true b l) (calls_send value))
      unfolding step send send_value get_mut_unchecked load set_value wake_slot drop_end drop
          wrapping_sub wake
      send-Goes inner value false l v = (
        record inner { waker = none },
        (
          _,
          refl,
          record {
            memory = refl;
            order = v.order;
            once = AtMostOne-weaken true l.accepted v.once;
            rx = rw (sleeping-wake task v.rx) nobody;
          },
        ),
      )
      send-Goes inner value true l v =
          let (fresh, free) =
            append-nil-both l.received (buffered inner.buf) (sym v.order ∙ v.once) in
          (
            record { waker = none; buf = some value },
            (
              _,
              refl,
              record {
                memory = refl;
                order = rw (v.once, fresh) refl;
                once = rw v.once (omega arith);
                rx = rw (sleeping-wake task v.rx) nobody;
              },
            ),
          )

      pub poll-Goes :
          (waker : Option W) (buf : Option T) (cx : W) (a : Bool) (l : Log T)
          → IsSound (shared waker buf) (system (shared waker buf) a true l)
          → Goes (step task will_wake (system (shared waker buf) a true l) (polls cx))
      unfolding step poll poll_with get_mut_unchecked load set_value
      poll-Goes waker (some value) cx true l v = (
        shared waker none,
        (
          _,
          refl,
          record {
            memory = refl;
            order = v.order ∙ sym (append-nil (l.received ++ (value ∷ [])));
            once = v.once;
            rx = nobody;
          },
        ),
      )
      poll-Goes waker (some value) cx false l v = (
        shared waker none,
        (
          _,
          refl,
          record {
            memory = refl;
            order = v.order ∙ sym (append-nil (l.received ++ (value ∷ [])));
            once = v.once;
            rx = nobody;
          },
        ),
      )
      poll-Goes waker none cx true l v = (
        shared (register will_wake waker cx) none,
        (
          _,
          refl,
          record {
            memory = refl;
            order = v.order;
            once = v.once;
            rx = register-SleepsOnlyIf task will_wake sound waker cx (refl, refl, refl);
          },
        ),
      )
      poll-Goes waker none cx false l v = (
        shared none none,
        (_, refl, record { memory = refl; order = v.order; once = v.once; rx = nobody }),
      )

      pub drop_sender-Goes :
          (inner : Shared T W) (b : Bool) (l : Log T)
          → IsSound inner (system inner true b l)
          → Goes (step task will_wake (system inner true b l) drops_sender)
      unfolding step drop_end get_mut_unchecked load set_value wake_slot drop wrapping_sub
      drop_sender-Goes inner true l v = (
        record inner { waker = none },
        (
          _,
          refl,
          record {
            memory = refl;
            order = v.order;
            once = AtMostOne-weaken true l.accepted v.once;
            rx = rw (sleeping-wake task v.rx) nobody;
          },
        ),
      )
      drop_sender-Goes inner false l v = (
        record inner { waker = none },
        (
          _,
          refl,
          record {
            memory = refl;
            order = v.order;
            once = AtMostOne-weaken true l.accepted v.once;
            rx = rw (sleeping-wake task v.rx) nobody;
          },
        ),
      )

      pub drop_receiver-Goes :
          (inner : Shared T W) (a : Bool) (l : Log T)
          → IsSound inner (system inner a true l)
          → Goes (step task will_wake (system inner a true l) drops_receiver)
      unfolding step drop_end get_mut_unchecked load set_value wake_slot drop wrapping_sub
      drop_receiver-Goes inner true l v = (
        record inner { waker = none },
        (_, refl, record { memory = refl; order = v.order; once = v.once; rx = nobody }),
      )
      drop_receiver-Goes inner false l v = (
        record inner { waker = none },
        (_, refl, record { memory = refl; order = v.order; once = v.once; rx = nobody }),
      )
