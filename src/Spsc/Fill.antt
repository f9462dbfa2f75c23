-- ===== src/Spsc/Fill.antt =====
-- How many messages a new channel takes by `try_send`.
use unsync.Prelude.{
  ℕ, ◌+◌, ◌≤◌, ◌<◌, ◌≡◌, refl, ap, true, false, none, some, List, [], ◌∷◌, ◌++◌, append_assoc,
  append-nil, arith, Result, ok, err, returns, Cmd, pure, ◌>>=◌, length, length-append, ◌==◌,
}
use unsync.Utils.{Allocator, push_back, with_capacity, len}
use unsync.BiRc.{World, new, get_mut_unchecked, set_value, wake_slot}
use unsync.Spsc.{Shared, at_capacity, push, try_send, channel}

module _ {T W : Type 0} (al : Allocator) where
  -- One `try_send` after the other, with what they return.
  abbrev pub try_sends : List T → Cmd (World (Shared T W) W) (List (Result (Unit {0}) T))
  try_sends [] = pure []
  try_sends (v ∷ vs) = do r ← try_send al v; rs ← try_sends vs; pure (r ∷ rs)

abbrev pub accepted : {T : Type 0} → List T → List (Result (Unit {0}) T)
accepted [] = []
accepted (v ∷ vs) = ok tt ∷ accepted vs

-- The memory of a bounded channel whose ends are there and do not wait.
abbrev holding : {T W : Type 0} → ℕ → List T → World (Shared T W) W
holding capacity items = record {
  memory = some (record {
    value = record {
      tx = none;
      rx = none;
      buf = record { items = items; capacity = capacity };
      unbounded = false;
    };
    count = 2;
  });
  woken = [];
}

module _ {T W : Type 0} (al : Allocator) where
  try_send-room :
      (n : ℕ) (xs : List T) (v : T)
      → length xs < n
      → try_send al v (holding {W = W} n xs) ≡ returns (ok tt) (holding n (xs ++ (v ∷ [])))
  unfolding try_send get_mut_unchecked at_capacity push push_back set_value wake_slot len
  try_send-room n xs v h =
      let free : (n == length xs) ≡ false = ground arith in
      let free' : (length xs == n) ≡ false = ground arith in rw (free, free') refl

  try_send-full :
      (n : ℕ) (xs : List T) (v : T)
      → length xs ≡ n
      → try_send al v (holding {W = W} n xs) ≡ returns (err v) (holding n xs)
  unfolding try_send get_mut_unchecked at_capacity len
  try_send-full n xs v h = let full : (n == length xs) ≡ true = ground arith in rw full refl

  try_sends-room :
      (n : ℕ) (xs vs : List T)
      → length xs + length vs ≤ n
      → try_sends al vs (holding {W = W} n xs) ≡ returns (accepted vs) (holding n (xs ++ vs))
  try_sends-room n xs [] h = rw append-nil
  try_sends-room n xs (v ∷ vs) h =
      let rest = try_sends-room n (xs ++ (v ∷ [])) vs (omega (arith, length-append xs (v ∷ []))) in
      rw (try_send-room n xs v (omega arith), rest)
        (ap (λ ys. returns (accepted (v ∷ vs)) (holding n ys)) (append_assoc xs (v ∷ []) vs))

  -- A new channel of a capacity other than 0 takes as many messages by `try_send` as its buffer was
  -- allocated for, which are at least as many as were asked for and may be more, before anything is
  -- received; it gives the next one back, and stays as it is.
  pub try_sends-fill :
      (capacity : ℕ) (vs : List T) (v : T)
      → 0 < capacity
      → length vs ≡ al.with_capacity capacity
      → (s : World (Shared T W) W) × ((t : World (Shared T W) W) × (channel al capacity ≡ some s)
          × (try_sends al vs s ≡ returns (accepted vs) t)
          × (try_send al v t ≡ returns (err v) t)
          × (capacity ≤ length vs))
  unfolding channel new with_capacity
  try_sends-fill capacity vs v h e =
      let n = al.with_capacity capacity in
      let some_room : (capacity == 0) ≡ false = ground arith in
      (
        holding n [],
        (
          holding n vs,
          rw some_room refl,
          try_sends-room n [] vs (omega arith),
          try_send-full n vs v e,
          omega (arith, al.with_capacity-ge capacity),
        ),
      )
