-- ===== src/Broadcast/Deliver.antt =====
-- What the loops of a send do to each receiver.
use unsync.Prelude.{
  ℕ, suc, ◌+◌, ◌<◌, ◌≤◌, length, ◌≢◌, ◌≡◌, refl, true, false, Bool, ◌||◌, List, [], ◌∷◌, ◌++◌,
  arith, inl, inr, Bool-cases, ◌==◌, if◌then◌else◌,
}
use unsync.Utils.{Allocator, push_back, wake, word_mod}
use unsync.Broadcast.Slab.{visit}
use unsync.Broadcast.Slab.Lists.{Each}
use unsync.Broadcast.{ReceiverState, at_capacity, try_deliver, deliver, bump_message_id}

module _ {T W : Type 0} where
  -- How many receivers hold the message `id`.
  abbrev pub holders : ℕ → List (ℕ × ReceiverState T W) → ℕ
  holders id [] = 0
  holders id ((k, r) ∷ rs) = (if r.id == id then 1 else 0) + holders id rs

  holders-most : (id : ℕ) (rs : List (ℕ × ReceiverState T W)) → holders id rs ≤ length rs
  holders-most id [] = omega arith
  holders-most id ((k, r) ∷ rs) = ground (arith, holders-most id rs)

  -- When as many hold the message as there are receivers, each of them does.
  pub holders-all :
      (id : ℕ) (rs : List (ℕ × ReceiverState T W))
      → holders id rs ≡ length rs
      → Each (λ j r. (r.id == id) ≡ true) rs
  holders-all id [] e = tt
  holders-all id ((k, r) ∷ rs) e =
      let most = holders-most id rs in
      elim (Bool-cases (r.id == id)) [
        | inl held ↦
            let rest : 1 + holders id rs ≡ suc (length rs) = rw held at e in
            (held, holders-all id rs (omega arith))
        | inr other ↦
            let rest : 0 + holders id rs ≡ suc (length rs) = rw other at e in absurd (omega arith)
      ]

  -- Of a receiver before and after: one that is left out is as it was, and any other has the value
  -- behind what was in its buffer and the number `id`, and is as it was in all else.
  abbrev pub Gets : Bool → ℕ → T → ReceiverState T W → ReceiverState T W → Type 0
  Gets true id value r t = t ≡ r
  Gets false id value r t =
      (t.buf.items ≡ r.buf.items ++ (value ∷ [])) × (t ≡ record r { id = id; buf = t.buf })

  -- Of the receivers before and after: who held the message or had no room is left out.
  abbrev pub Delivered :
      ℕ → T → List (ℕ × ReceiverState T W) → List (ℕ × ReceiverState T W) → Type 0
  Delivered id value [] [] = Unit {0}
  Delivered id value [] (t ∷ ts) = ⊥
  Delivered id value (r ∷ rs) [] = ⊥
  Delivered id value ((k, r) ∷ rs) ((j, t) ∷ ts) =
      (j ≡ k) × Gets ((r.id == id) || at_capacity r) id value r t × Delivered id value rs ts

  -- Of a `try_send`: who had no room is left out, and the numbers stay.
  abbrev pub Tried : T → List (ℕ × ReceiverState T W) → List (ℕ × ReceiverState T W) → Type 0
  Tried value [] [] = Unit {0}
  Tried value [] (t ∷ ts) = ⊥
  Tried value (r ∷ rs) [] = ⊥
  Tried value ((k, r) ∷ rs) ((j, t) ∷ ts) =
      (j ≡ k) × Gets (at_capacity r) r.id value r t × Tried value rs ts

  pub try_deliver-Tried :
      (al : Allocator) (value : T) (rs : List (ℕ × ReceiverState T W)) (n : ℕ) (woken : List W)
      → Tried value rs (visit (try_deliver al value) rs (n, woken)).0
  unfolding try_deliver push_back
  try_deliver-Tried al value [] n woken = tt
  try_deliver-Tried al value ((k, r) ∷ rs) n woken = elim (Bool-cases (at_capacity r)) [
    | inl no_room ↦ rw no_room (refl, refl, try_deliver-Tried al value rs n woken)
    | inr room ↦
        rw room (refl, (refl, refl), try_deliver-Tried al value rs (n + 1) (wake r.waker woken))
  ]

  module _ (al : Allocator) (id : ℕ) (value : T) where
    -- What the loop may do with a receiver.
    pub data Handled (r : ReceiverState T W) (n : ℕ) (woken : List W)
        : ReceiverState T W × (ℕ × List W) → Type 0 where
      holds : (r.id == id) ≡ true → Handled r n woken (r, (n + 1, woken))
      full : (r.id == id) ≡ false → at_capacity r ≡ true → Handled r n woken (r, (n, woken))
      takes :
          (r.id == id) ≡ false
          → at_capacity r ≡ false
          → Handled r n woken
              (record r { id = id; buf = push_back al r.buf value }, (n + 1, wake r.waker woken))

    pub deliver-Handled :
        (r : ReceiverState T W) (n : ℕ) (woken : List W)
        → Handled r n woken (deliver al id value r (n, woken))
    unfolding deliver
    deliver-Handled r n woken = elim (Bool-cases (r.id == id)) [
      | inl held ↦ rw held (holds held)
      | inr new ↦ elim (Bool-cases (at_capacity r)) [
        | inl no_room ↦ rw (new, no_room) (full new no_room)
        | inr room ↦ rw (new, room) (takes new room)
      ]
    ]

    abbrev Visited :
        List (ℕ × ReceiverState T W) → ℕ → List (ℕ × ReceiverState T W) × (ℕ × List W) → Type 0
    Visited rs n (ts, (m, ws)) = Delivered id value rs ts × (m ≡ n + holders id ts)

    Handled-Visited :
        (k : ℕ) (r : ReceiverState T W) (rs : List (ℕ × ReceiverState T W)) (n : ℕ) (woken : List W)
        (x : ReceiverState T W × (ℕ × List W))
        → Handled r n woken x
        → ((m : ℕ) (ws : List W) → Visited rs m (visit (deliver al id value) rs (m, ws)))
        → let (ts, b) = visit (deliver al id value) rs x.1 in
          Visited ((k, r) ∷ rs) n ((k, x.0) ∷ ts, b)
    unfolding push_back
    Handled-Visited k r rs n woken x (holds held) ih =
        let (d, c) = ih (n + 1) woken in ((refl, rw held refl, d), rw held (omega (arith, c)))
    Handled-Visited k r rs n woken x (full new no_room) ih =
        let (d, c) = ih n woken in ((refl, rw (new, no_room) refl, d), rw new (omega (arith, c)))
    Handled-Visited k r rs n woken x (takes new room) ih =
        let (d, c) = ih (n + 1) (wake r.waker woken) in
        let self : (id == id) ≡ true = ground arith in
        ((refl, rw (new, room) (refl, refl), d), rw self (omega (arith, c)))

    visit-Visited :
        (rs : List (ℕ × ReceiverState T W)) (n : ℕ) (woken : List W)
        → Visited rs n (visit (deliver al id value) rs (n, woken))
    visit-Visited [] n woken = (tt, omega arith)
    visit-Visited ((k, r) ∷ rs) n woken =
        Handled-Visited k r rs n woken (deliver al id value r (n, woken))
          (deliver-Handled r n woken) (visit-Visited rs)

    -- One pass of the loop of a `send` puts the message once behind what is in the buffer of every receiver
    -- that does not hold it and has room, and notes there that it holds it, with nothing else of it changed;
    -- it leaves the others as they were; and it counts those that hold the message afterwards.
    pub deliver-Delivered :
        (rs : List (ℕ × ReceiverState T W)) (woken : List W)
        → let (ts, (n, ws)) = visit (deliver al id value) rs (0, woken) in
          Delivered id value rs ts × (n ≡ holders id ts)
    deliver-Delivered rs woken = let (d, c) = visit-Visited rs 0 woken in (d, omega (arith, c))

-- The number of a new message is not that of the last one, nor 0, which fresh receivers hold before
-- any message was sent; and it fits into 64 bits.
pub bump_message_id-fresh :
    (id : ℕ)
    → id < word_mod
    → (bump_message_id id ≢ id) × (bump_message_id id ≢ 0) × (bump_message_id id < word_mod)
unfolding bump_message_id
bump_message_id-fresh id small = ground arith
