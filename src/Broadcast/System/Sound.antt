-- ===== src/Broadcast/System/Sound.antt =====
-- What holds of a broadcast channel and its log.
use unsync.Prelude.{
  ℕ, ◌≤◌, ◌<◌, ◌≡◌, ◌≢◌, sym, subst, Bool, true, false, not, ◌||◌, Option, none, some, is_some,
  List, [], ◌∷◌, ◌++◌, ◌==◌, if◌then◌else◌, length,
}
use unsync.Utils.{Allocator, word_mod}
use unsync.Utils.Sleepers.{SleepsOnlyIf}
use unsync.BroadRc.Handles.{shared_by}
use unsync.Broadcast.Slab.{SlabOf, lookup}
use unsync.Broadcast.Slab.Lists.{Each, IsDistinct}
use unsync.Broadcast.{ReceiverState, Shared, at_capacity}
use unsync.Broadcast.Deliver.{holders}
use unsync.Broadcast.System.{Subscription, Log, System}

module _ {T : Type 0} where
  -- What a receiver whose last message is `n` holds of the message `id` that is being sent.
  abbrev pub reached : Option T → ℕ → ℕ → List T
  reached none id n = []
  reached (some value) id n = if n == id then value ∷ [] else []

module _ {T W : Type 0} where
  -- It holds the last message, or has no room for it.
  abbrev pub IsServed : ℕ → ℕ → ReceiverState T W → Type 0
  IsServed id j r = ((r.id == id) || at_capacity r) ≡ true

  -- The room in a buffer: without bound, or what was allocated for `n` and never more.
  abbrev pub Room : Allocator → Option ℕ → ReceiverState T W → Type 0
  Room al none r = r.unbounded ≡ true
  Room al (some n) r =
      (r.unbounded ≡ false)
      × (r.buf.capacity ≡ al.with_capacity n)
      × (length r.buf.items ≤ al.with_capacity n)

  -- The system whose memory is `inner`, by the references that are there.
  abbrev pub system : {S : SlabOf (ReceiverState T W)} → Shared S → Bool → Log T → System S
  system inner a l = record {
    memory = shared_by inner (record { sender = a; receivers = l.receivers });
    sender = a;
    log = l;
  }

  module _ (al : Allocator) (task : W → ℕ) (limit : Option ℕ) where
    -- The receiver and its part of the log, while message `id` is the last one.
    pub record Holds (sender : Bool) (sending : Option T) (id : ℕ) (u : Subscription T)
        (r : ReceiverState T W) : Type 0 where
      pub order : u.received ++ r.buf.items ≡ u.due ++ reached sending id r.id
      pub number : r.id ≤ id
      pub room : Room al limit r
      pub rx : SleepsOnlyIf task ((r.buf.items ≡ []) × (sender ≡ true)) r.waker u.asleep

    -- The receivers with their indices, and the log.
    pub record Good (sender : Bool) (id : ℕ) (slot : Option W) (l : Log T)
        (items : List (ℕ × ReceiverState T W)) : Type 0 where
      pub distinct : IsDistinct items
      pub count : length items ≡ l.receivers
      pub there : (j : ℕ) → (l.subs j).there ≡ is_some (lookup j items)
      pub number : id ≡ l.bumps
      pub fits : id < word_mod
      pub few : l.receivers < word_mod
      pub sends : (not (is_some l.sending) || sender) ≡ true
      pub each : Each (λ j r. Holds sender l.sending id (l.subs j) r) items
      pub tx :
          SleepsOnlyIf task
            ((is_some l.sending ≡ true)
              × (holders id items ≢ length items)
              × Each (IsServed id) items)
            slot
            l.tx_asleep

    -- `inner` is what the ends share, or what they shared when the last of them was dropped.
    pub record IsSound {S : SlabOf (ReceiverState T W)} (inner : Shared S) (s : System S)
        : Type 0 where
      pub memory :
          s.memory ≡ shared_by inner (record { sender = s.sender; receivers = s.log.receivers })
      pub capacity : inner.capacity ≡ limit
      pub good : Good s.sender inner.id inner.sender s.log (S.items inner.receivers)

    module _ {S : SlabOf (ReceiverState T W)} where
      abbrev pub Goes : Option (System S) → Type 0
      Goes x = (inner : Shared S) × ((t : System S) × (x ≡ some t) × IsSound inner t)

      -- It is enough to look at systems whose memory is written out.
      pub Goes-memory :
          (f : System S → Option (System S)) (inner : Shared S) (s : System S)
          → IsSound inner s
          → Goes (f (system inner s.sender s.log))
          → Goes (f s)
      Goes-memory f inner s v g = subst (λ m. Goes (f (record s { memory = m }))) (sym v.memory) g
