-- ===== src/Broadcast/System/Promises.antt =====
-- What the owner of a broadcast channel's sender waits for.
use unsync.Prelude.{
  ℕ, ◌<◌, ◌≡◌, ◌≢◌, refl, ap, ◌∙◌, Bool, true, false, Option, none, some, is_some, List, [], ◌∷◌,
  arith, inl, inr, Bool-cases, ◌==◌, length, returns, ready,
}
use unsync.Utils.{Allocator, len, pop_front, pop_items}
use unsync.Utils.Sleepers.{SleepsOnlyIf-why, SleepsOnlyIf-never}
use unsync.BroadRc.{Inner}
use unsync.Broadcast.Slab.{SlabOf, IsLawful, lookup}
use unsync.Broadcast.Slab.Lists.{Each}
use unsync.Broadcast.Slab.Keys.{Each-own, Each-both}
use unsync.Broadcast.{
  ReceiverState, Shared, World, at_capacity, channel, recv_poll, recv_found, recv_popped, wake_slot,
}
use unsync.Broadcast.Deliver.{holders}
use unsync.Broadcast.System.{System, Reach, opened_by}
use unsync.Broadcast.System.Runs.{broadcast-IsSound, channel-room}
use unsync.Broadcast.System.Sound.{IsSound, Room, IsServed}
use unsync.BroadRc.Handles.{shared_by}
use unsync.Broadcast.System.Puts.{weak_get-shared_by, set_value-shared_by, lookup-some}

module _ {T W : Type 0} where
  -- Where not all hold the message, one that does not has no room.
  someone-full :
      (P : ℕ → ReceiverState T W → Type 0) (id : ℕ) (rs : List (ℕ × ReceiverState T W))
      → holders id rs ≢ length rs
      → Each (IsServed id) rs
      → Each P rs
      → (j : ℕ) × ((r : ReceiverState T W) × ((r.id == id) ≡ false)
          × (at_capacity r ≡ true)
          × P j r)
  someone-full P id [] h s p = absurd (h refl)
  someone-full P id ((k, r) ∷ rs) h (s, ss) (p, ps) = elim (Bool-cases (r.id == id)) [
    | inl held ↦ someone-full P id rs (λ e. h (rw (held, e) (omega arith))) ss ps
    | inr other ↦ (k, (r, other, rw other at s, p))
  ]

  module _ (al : Allocator) where
    full-some :
        (n : ℕ) (r : ReceiverState T W)
        → 0 < n
        → Room al (some n) r
        → at_capacity r ≡ true
        → r.buf.items ≢ []
    unfolding at_capacity len
    full-some n r enough_n (u, c, l) full e =
        let enough = al.with_capacity-ge n in
        let empty : length r.buf.items ≡ 0 = rw e refl in ground arith

  module _ {S : SlabOf (ReceiverState T W)} (law : IsLawful S) (will_wake : W → W → Bool) where
    -- A poll of the receiver at `k` gets a value.
    abbrev pub Gets : ℕ → Option (Inner (Shared S)) → Type 0
    Gets k memory =
        (value : T) × ((cx : W) (woken : List W)
          → (w : World S) × (recv_poll will_wake k cx (record { memory = memory; woken = woken })
              ≡ returns (ready (some value)) w))

    items-Gets :
        (inner : Shared S) (a : Bool) (n : ℕ) (k : ℕ) (r : ReceiverState T W) (items : List T)
        → lookup k (S.items inner.receivers) ≡ some r
        → (n == 0) ≡ false
        → r.buf.items ≡ items
        → items ≢ []
        → Gets k (shared_by inner (record { sender = a; receivers = n }))
    unfolding recv_poll recv_found pop_front pop_items recv_popped wake_slot
    items-Gets inner a n k r [] own some_left e h = absurd (h refl)
    items-Gets inner a n k r (value ∷ items) own some_left e h =
        let r' : ReceiverState T W = record r {
          buf = record { items = items; capacity = r.buf.capacity };
        } in
        let inner' : Shared S = record inner { receivers = S.put k r' inner.receivers } in
        (
          value,
          λ cx woken.
              rw
                (
                  weak_get-shared_by inner a n some_left,
                  law.get-items k inner.receivers ∙ own,
                  e,
                  set_value-shared_by inner inner' a n some_left,
                )
                (_, refl),
        )

    -- What holds in every state of a channel of a capacity.
    module _ (al : Allocator) (task : W → ℕ) (n : ℕ) where
      tx-Gets :
          (inner : Shared S) (s : System S) {t : ℕ}
          → 0 < n
          → IsSound al task (some n) inner s
          → s.log.tx_asleep ≡ some t
          → (k : ℕ) × ((s.log.subs k).there ≡ true)
            × ((s.log.subs k).asleep ≡ none)
            × Gets k s.memory
      tx-Gets inner s some_room v e =
          let items = S.items inner.receivers in
          let (sends, apart, served) = SleepsOnlyIf-why task v.good.tx e in
          let (k, (r, behind, full, (h, own))) =
            someone-full _ inner.id items apart served
              (Each-both _ _ items v.good.each (Each-own items v.good.distinct)) in
          let waiting = full-some al n r some_room h.room full in
          (
            k,
            v.good.there k ∙ ap is_some own,
            SleepsOnlyIf-never task (λ p. waiting p.0) h.rx,
            rw v.memory (
                items-Gets inner s.sender s.log.receivers k r r.buf.items own
                  (lookup-some k items own v.good.count) refl waiting),
          )

    module _ (al : Allocator) (task : W → ℕ)
        (sound : (v w : W) → will_wake v w ≡ true → task v ≡ task w) where
      -- Whatever was done with a channel of a capacity, where the slab is as documented and `will_wake`
      -- holds only of wakers of one task: while the sender sleeps in a `send`, there is a receiver that
      -- does not sleep and whose `recv` gets a value when polled, so that they never wait for each
      -- other.
      pub sleeping_send-Gets :
          (n : ℕ) {w : World S} {s : System S} {t : ℕ}
          → channel n ≡ some w
          → Reach task al will_wake (opened_by w) s
          → s.log.tx_asleep ≡ some t
          → (k : ℕ) × ((s.log.subs k).there ≡ true)
            × ((s.log.subs k).asleep ≡ none)
            × Gets k s.memory
      sleeping_send-Gets n {s} opens r e =
          let (inner, v) = broadcast-IsSound al task law will_wake sound n opens r in
          tx-Gets al task n inner s (channel-room n opens) v e
