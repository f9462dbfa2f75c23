-- ===== src/Broadcast/System/Returns.antt =====
-- What the owner of a broadcast channel's sender gets back.
use unsync.Prelude.{
  ℕ, ◌+◌, ◌≡◌, refl, ap, ◌∙◌, sym, subst, Bool, true, List, [], ◌∷◌, arith, inl, inr, Bool-cases,
  ◌==◌, if◌then◌else◌, length, returns, Result, ok, err, Poll, ready, pending,
}
use unsync.Utils.{Allocator, wake}
use unsync.BroadRc.{strong_get, set_value, load}
use unsync.BroadRc.Handles.{Handles, shared_by}
use unsync.Broadcast.Slab.{SlabOf, IsLawful, visit}
use unsync.Broadcast.Slab.Keys.{length-visit}
use unsync.Broadcast.{
  ReceiverState, Shared, World, at_capacity, bump, bump_message_id, try_send, try_deliver,
  send_poll, deliver, looped,
}
use unsync.Broadcast.Deliver.{Tried, try_deliver-Tried}
use unsync.Broadcast.System.Sends.{length-zero}

-- Whether they are all that there are.
abbrev pub reaches_all : ℕ → ℕ → Result ℕ ℕ
reaches_all all n = if n == all then ok n else err n

abbrev pub waits_for_all : ℕ → ℕ → Poll ℕ
waits_for_all all n = if n == all then ready n else pending

module _ {T W : Type 0} where
  -- How many receivers have room.
  abbrev pub rooms : List (ℕ × ReceiverState T W) → ℕ
  rooms [] = 0
  rooms ((k, r) ∷ rs) = (if at_capacity r then 0 else 1) + rooms rs

  -- How many hold a message, or have room for it.
  abbrev pub takers : ℕ → List (ℕ × ReceiverState T W) → ℕ
  takers id [] = 0
  takers id ((k, r) ∷ rs) =
      (if r.id == id then 1 else (if at_capacity r then 0 else 1)) + takers id rs

  module _ (al : Allocator) where
    try_deliver-rooms :
        (value : T) (rs : List (ℕ × ReceiverState T W)) (n : ℕ) (woken : List W)
        → (visit (try_deliver al value) rs (n, woken)).1.0 ≡ n + rooms rs
    unfolding try_deliver
    try_deliver-rooms value [] n woken = omega arith
    try_deliver-rooms value ((k, r) ∷ rs) n woken = elim (Bool-cases (at_capacity r)) [
      | inl no_room ↦ rw no_room (omega (arith, try_deliver-rooms value rs n woken))
      | inr room ↦ rw room (omega (arith, try_deliver-rooms value rs (n + 1) (wake r.waker woken)))
    ]

    deliver-takers :
        (id : ℕ) (value : T) (rs : List (ℕ × ReceiverState T W)) (n : ℕ) (woken : List W)
        → (visit (deliver al id value) rs (n, woken)).1.0 ≡ n + takers id rs
    unfolding deliver
    deliver-takers id value [] n woken = omega arith
    deliver-takers id value ((k, r) ∷ rs) n woken = elim (Bool-cases (r.id == id)) [
      | inl held ↦ rw held (omega (arith, deliver-takers id value rs (n + 1) woken))
      | inr other ↦ elim (Bool-cases (at_capacity r)) [
        | inl no_room ↦ rw (other, no_room) (omega (arith, deliver-takers id value rs n woken))
        | inr room ↦
            rw (other, room)
              (omega (arith, deliver-takers id value rs (n + 1) (wake r.waker woken)))
      ]
    ]

    module _ {S : SlabOf (ReceiverState T W)} (law : IsLawful S) where
      -- Where the slab is as documented and the channel has as many weak references as receivers:
      -- `try_send` returns; it puts the message behind what is in the buffer of every receiver that has room,
      -- with nothing else of it changed, and leaves the other receivers as they were; the sender has the
      -- next message number, and nothing else of the channel changes. It succeeds with the number of the
      -- receivers if all of them had room, else it fails with the number of those that had.
      pub try_send-rooms :
          (inner : Shared S) (value : T) (woken : List W)
          → let items = S.items inner.receivers in
            let handles : Handles = record { sender = true; receivers = length items } in
            (rs : S.Slab) × ((ws : List W) × (try_send al value
                  (record { memory = shared_by inner handles; woken = woken })
                ≡ returns (reaches_all (length items) (rooms items)) (record {
                  memory =
                      shared_by
                        (record inner { id = bump_message_id inner.id; receivers = rs })
                        handles;
                  woken = ws;
                }))
              × Tried value items (S.items rs))
      unfolding try_send bump strong_get set_value load looped
      try_send-rooms inner value woken =
          let f = try_deliver al value in
          let x = S.iter_mut f inner.receivers (0, woken) in
          let items = S.items inner.receivers in
          let reached : x.1.0 ≡ rooms items =
            ap (λ b. b.0) (law.iter_mut-visit f inner.receivers (0, woken))
            ∙ try_deliver-rooms value items 0 woken
            ∙ (omega arith) in
          let all : S.len x.0 ≡ length items =
            law.len-items x.0
            ∙ ap length (law.items-iter_mut f inner.receivers (0, woken))
            ∙ length-visit f items (0, woken) in
          let tried : Tried value items (S.items x.0) =
            subst (Tried value items) (sym (law.items-iter_mut f inner.receivers (0, woken)))
              (try_deliver-Tried al value items 0 woken) in
          elim (Bool-cases (length items == 0)) [
            | inl none_there ↦
                let nothing = length-zero items refl none_there in
                rw nothing (inner.receivers, (woken, refl, rw nothing tt))
            | inr some_there ↦ rw (some_there, reached, all) (x.0, (x.1.1, refl, tried))
          ]

      -- Where the slab is as documented and the channel has as many weak references as receivers: a `send`
      -- under way counts the receivers that hold its message or have room for it, and is ready with their number once these are all, else pending.
      pub send_poll-takers :
          (will_wake : W → W → Bool) (inner : Shared S) (value : T) (cx : W) (woken : List W)
          → let items = S.items inner.receivers in
            let memory = shared_by inner (record { sender = true; receivers = length items }) in
            (w : World S) × (send_poll al will_wake value cx
                (record { memory = memory; woken = woken })
              ≡ returns (waits_for_all (length items) (takers inner.id items)) w)
      unfolding send_poll strong_get set_value load looped
      send_poll-takers will_wake inner value cx woken =
          let f = deliver al inner.id value in
          let x = S.iter_mut f inner.receivers (0, woken) in
          let items = S.items inner.receivers in
          let taken : x.1.0 ≡ takers inner.id items =
            ap (λ b. b.0) (law.iter_mut-visit f inner.receivers (0, woken))
            ∙ deliver-takers inner.id value items 0 woken
            ∙ (omega arith) in
          let all : S.len x.0 ≡ length items =
            law.len-items x.0
            ∙ ap length (law.items-iter_mut f inner.receivers (0, woken))
            ∙ length-visit f items (0, woken) in
          elim (Bool-cases (length items == 0)) [
            | inl none_there ↦ rw (length-zero items refl none_there) (_, refl)
            | inr some_there ↦ rw (some_there, taken, all) (_, refl)
          ]
