-- ===== src/OnceCell/Waiting.antt =====
-- How many futures wait after a call of the cell: at most one more.
use unsync.Prelude.{
  Bool, ℕ, suc, ◌≤◌, ◌≡◌, refl, Option, none, some, List, [], ◌∷◌, arith, length, length-append,
  Poll,
}
use unsync.WaitList.{Ptr, State, input, output}
use unsync.WaitList.Spec.{Queue, start, repoll}
use unsync.WaitList.Spec
use unsync.WaitList.Spec.Cases.{Polled, missing, waits, ends, poll-Polled}
use unsync.WaitList.Spec.Lengths.{length-update, IsShort, drop-IsShort}
use unsync.OnceCell.{
  OnceCell, uninit, initializing, initialized, Progress, set, set_in, init_start, init_start_in,
  init_handed, init_found, init_poll, leftover, drop_baton, drop_baton_in, drop_found, init_drop,
}
use unsync.OnceCell

module _ {T W : Type 0} where
  abbrev pub waiters : OnceCell T W → ℕ
  waiters c = length c.waiters.waiting

  abbrev pub AtMost : {A : Type 0} → ℕ → Option (A × OnceCell T W) → Type 0
  AtMost b none = Unit {0}
  AtMost b (some (a, t)) = waiters t ≤ b

  leftover-le :
      (q : Queue (Unit {0}) (Unit {0}) W) (es : List _) (c : OnceCell T W) (b : ℕ)
      → q.waiting ≡ es
      → length es ≤ b
      → waiters (leftover (Spec.wake_front es tt q) c) ≤ b
  unfolding leftover Spec.wake_front
  leftover-le q [] c b e h = rw e (omega arith)
  leftover-le q (x ∷ es) c b e h = omega arith

  drop_baton_in-le :
      (st : OnceCell.State T) (c : OnceCell T W) → waiters (drop_baton_in st c) ≤ waiters c
  unfolding drop_baton_in Spec.wake_one
  drop_baton_in-le uninit c = omega arith
  drop_baton_in-le initializing c =
      leftover-le c.waiters c.waiters.waiting c (waiters c) refl (omega arith)
  drop_baton_in-le (initialized value) c = omega arith

  pub drop_baton-le : (c : OnceCell T W) → waiters (drop_baton c) ≤ waiters c
  unfolding drop_baton
  drop_baton-le c = drop_baton_in-le c.state c

  set_in-eq :
      (st : OnceCell.State T) (value : T) (c : OnceCell T W)
      → waiters (set_in st value c).1 ≡ waiters c
  unfolding set_in
  set_in-eq uninit value c = refl
  set_in-eq initializing value c = refl
  set_in-eq (initialized reference) value c = refl

  pub set-eq : (value : T) (c : OnceCell T W) → waiters (set value c).1 ≡ waiters c
  unfolding set
  set-eq value c = set_in-eq c.state value c

  start_in-le :
      (st : OnceCell.State T) (p : Ptr) (cx : W) (c : OnceCell T W)
      → waiters (init_start_in st p cx c).1 ≤ suc (waiters c)
  unfolding init_start_in start
  start_in-le uninit p cx c = omega arith
  start_in-le initializing p cx c = omega (arith, length-append c.waiters.waiting _)
  start_in-le (initialized value) p cx c = omega arith

  pub start-le :
      (p : Ptr) (cx : W) (c : OnceCell T W) → waiters (init_start p cx c).1 ≤ suc (waiters c)
  unfolding init_start
  start-le p cx c = start_in-le c.state p cx c

  handed-AtMost :
      (st : OnceCell.State T) (c : OnceCell T W) (b : ℕ)
      → waiters c ≤ b
      → AtMost b (init_handed st c)
  unfolding init_handed
  handed-AtMost uninit c b h = tt
  handed-AtMost initializing c b h = h
  handed-AtMost (initialized value) c b h = h

  found-AtMost :
      (will_wake : W → W → Bool) (p : Ptr) (cx : W) (c : OnceCell T W)
      {x : Option (Poll (Unit {0}) × Queue (Unit {0}) (Unit {0}) W)}
      → Polled will_wake p cx c.waiters x
      → AtMost (waiters c) (init_found c x)
  unfolding init_found
  found-AtMost will_wake p cx c missing = tt
  found-AtMost will_wake p cx c waits =
      omega (arith, length-update (repoll will_wake cx) p c.waiters.waiting)
  found-AtMost will_wake p cx c (ends o h) =
      handed-AtMost c.state (record c { waiters = _ }) (waiters c) (omega arith)

  pub poll-AtMost :
      (will_wake : W → W → Bool) (p : Ptr) (cx : W) (c : OnceCell T W)
      → AtMost (waiters c) (init_poll will_wake p cx c)
  unfolding init_poll
  poll-AtMost will_wake p cx c =
      found-AtMost will_wake p cx c (poll-Polled p c.waiters will_wake cx)

  abbrev pub AtMostIf : ℕ → Option (OnceCell T W) → Type 0
  AtMostIf b none = Unit {0}
  AtMostIf b (some t) = waiters t ≤ b

  dropped-AtMostIf :
      (x : Option (State (Unit {0}) (Unit {0}) × Queue (Unit {0}) (Unit {0}) W)) (c : OnceCell T W)
      (b : ℕ)
      → IsShort x (suc b)
      → AtMostIf b (drop_found c x)
  unfolding drop_found
  dropped-AtMostIf none c b h = tt
  dropped-AtMostIf (some (input i, q)) c b h = omega arith
  dropped-AtMostIf (some (output o, q)) c b h =
      omega (arith, drop_baton-le (record c { waiters = q }))

  pub drop-AtMostIf : (p : Ptr) (c : OnceCell T W) → AtMostIf (waiters c) (init_drop p c)
  unfolding init_drop
  drop-AtMostIf p c =
      dropped-AtMostIf (Spec.drop p c.waiters) c (waiters c)
        (drop-IsShort p c.waiters (omega arith))
