-- ===== src/OnceCell/Futures.antt =====
-- The futures of src/once_cell.rs that wrap `get_or_try_init`: `get_or_init`, and `insert` over that.
--
-- The initializer of `insert` is ready at once, so that a future that gets the job ends in the same
-- poll. `none` is a panic, or that no such future is there.
use unsync.Prelude.{
  Bool, ℕ, ◌+◌, ◌-◌, ◌≡◌, ◌≢◌, refl, subst, ◌∙◌, Option, none, some, [], Result, ok, err, Poll,
  ready, pending, arith,
}
use unsync.WaitList.{Ptr}
use unsync.WaitList.Spec.{Queue, start}
use unsync.WaitList.Spec
use unsync.OnceCell.{
  OnceCell, State, uninit, initializing, initialized, Progress, waiting, leading, finished, get,
  get_state, init_start, init_start_in, init_poll, init_succeeds, init_fails, init_found,
  init_handed,
}
use unsync.OnceCell.Values.{insert_reply}
use unsync.OnceCell.System.{System, joined}
use unsync.OnceCell.System.Jobs.{Jobs, init_start-Jobs}
use unsync.OnceCell.System.Runs.{IsSound, init_poll-Found, init_succeeds-clears, succeeds-Jobs}

infixl 5 ◌>>=◌
abbrev ◌>>=◌ : {A B : Type 0} → Option A → (A → Option B) → Option B
none >>= f = none
some a >>= f = f a

module _ {T : Type 0} where
  -- `match` of `get_or_init`: there is no value of the type of its errors.
  unfoldable pub get_or_init_reply : Result T ⊥ → T
  get_or_init_reply (ok value) = value
  get_or_init_reply (err infallible) = absurd infallible

  -- What the future of `get_or_try_init` sees of the state that it finds.
  abbrev Sees : State T → Progress T → Type 0
  Sees st waiting = Unit {0}
  Sees st leading = st ≡ initializing
  Sees st (finished v) = st ≡ initialized v

module _ {T W : Type 0} where
  -- The end of `get_or_try_init` where the initializer has ended: `?`, then `self.get().unwrap()`.
  unfoldable pub init_ended :
      {E : Type 0} → Result T E → OnceCell T W → Option (Result T E × OnceCell T W)
  unfolding init_succeeds get init_fails
  init_ended (ok value) cell = do
    after ← init_succeeds value cell
    reference ← get after
    some (ok reference, after)
  init_ended (err e) cell = some (err e, init_fails cell)

  -- The end of `get_or_init` where its initializer has ended.
  unfoldable pub get_or_init_ended : T → OnceCell T W → Option (T × OnceCell T W)
  unfolding init_ended get_or_init_reply
  get_or_init_ended value cell = do
    ended ← init_ended (ok value) cell
    some (get_or_init_reply ended.0, ended.1)

  -- A poll of `insert`, on what the poll of `get_or_try_init` came to.
  unfoldable pub insert_goes :
      T → Progress T × OnceCell T W → Option (Poll (Result T (T × T)) × OnceCell T W)
  unfolding get_or_init_ended insert_reply
  insert_goes value (waiting, cell) = some (pending, cell)
  insert_goes value (leading, cell) = do
    ended ← get_or_init_ended value cell
    some (ready (insert_reply none ended.0), ended.1)
  insert_goes value (finished reference, cell) =
      some (ready (insert_reply (some value) reference), cell)

  unfoldable pub insert_start :
      Ptr → W → T → OnceCell T W → Option (Poll (Result T (T × T)) × OnceCell T W)
  unfolding init_start insert_goes
  insert_start p cx value cell = insert_goes value (init_start p cx cell)

  unfoldable pub insert_poll :
      (W → W → Bool) → Ptr → W → T → OnceCell T W → Option (Poll (Result T (T × T)) × OnceCell T W)
  unfolding init_poll insert_goes
  insert_poll will_wake p cx value cell = do
    progress ← init_poll will_wake p cx cell
    insert_goes value progress

  -- What an `insert` of a value may say of the cell before and after a poll. An `ok` is the value
  -- that is there now and was not before; an `err` gives the value back with the one that the cell
  -- held all along; and while it waits the state of the cell is as it was.
  abbrev pub Answers : T → OnceCell T W → Poll (Result T (T × T)) → OnceCell T W → Type 0
  Answers value before pending after = after.state ≡ before.state
  Answers value before (ready (ok v)) after =
      (v ≡ value) × (get before ≡ none) × (get after ≡ some value) × (after.waiters.waiting ≡ [])
  Answers value before (ready (err (reference, v))) after =
      (v ≡ value) × (get before ≡ some reference) × (get after ≡ some reference)

  -- Nobody else comes to run an initializer by it.
  abbrev pub Answered :
      T → OnceCell T W → ℕ → Option (Poll (Result T (T × T)) × OnceCell T W) → Type 0
  Answered value before n x =
      (r : Poll (Result T (T × T))) × ((after : OnceCell T W) × (x ≡ some (r, after))
        × Answers value before r after
        × Jobs after.state after.waiters n)

  -- Of the states before, one that holds no value.
  leading-Answered :
      (value : T) (before cell : OnceCell T W) (n : ℕ)
      → get before ≡ none
      → Jobs cell.state cell.waiters (n + 1)
      → Answered value before n (insert_goes value (leading, cell))
  unfolding insert_goes get_or_init_ended init_ended get_or_init_reply insert_reply
  leading-Answered value before cell n free j =
      let (after, ran, there, nobody) = init_succeeds-clears value cell in
      let jobs : Jobs after.state after.waiters (n + 1 - 1) =
        succeeds-Jobs value cell after (n + 1) (omega arith) j ran in
      let same : n + 1 - 1 ≡ n = omega arith in
      rw (ran, there)
        (ready (ok value), (after, refl, (refl, free, there, nobody), rw same at jobs))

  finished-Answered :
      (value reference : T) (before cell : OnceCell T W) (n : ℕ)
      → before.state ≡ initialized reference
      → cell.state ≡ initialized reference
      → Jobs cell.state cell.waiters n
      → Answered value before n (insert_goes value (finished reference, cell))
  unfolding insert_goes insert_reply get get_state
  finished-Answered value reference before cell n b c j =
      (ready (err (reference, value)), (cell, refl, (refl, rw b refl, rw c refl), j))

  insert_start-fields :
      (st : State T) (q : Queue (Unit {0}) (Unit {0}) W) (p : Ptr) (cx : W) (value : T) (n : ℕ)
      → let cell : OnceCell T W = record { state = st; waiters = q } in
        Jobs st q n → Answered value cell n (insert_start p cx value cell)
  unfolding insert_start insert_goes init_start init_start_in get get_state
  insert_start-fields uninit q p cx value n j =
      leading-Answered value (record { state = uninit; waiters = q })
        (record { state = initializing; waiters = q }) n refl
        (init_start-Jobs {T = T} uninit q p cx n j)
  insert_start-fields initializing q p cx value n j =
      (pending, (_, refl, refl, init_start-Jobs {T = T} initializing q p cx n j))
  insert_start-fields (initialized v) q p cx value n j =
      let cell : OnceCell T W = record { state = initialized v; waiters = q } in
      finished-Answered value v cell cell n refl refl j

  abbrev Seen : OnceCell T W → Option (Progress T × OnceCell T W) → Type 0
  Seen cell none = Unit {0}
  Seen cell (some (r, after)) = (after.state ≡ cell.state) × Sees cell.state r

  init_handed-Seen :
      (st : State T) (cell : OnceCell T W) → cell.state ≡ st → Seen cell (init_handed st cell)
  unfolding init_handed
  init_handed-Seen uninit cell e = tt
  init_handed-Seen initializing cell e = (refl, e)
  init_handed-Seen (initialized v) cell e = (refl, e)

  init_found-Seen :
      (cell : OnceCell T W) (x : Option (Poll (Unit {0}) × Queue (Unit {0}) (Unit {0}) W))
      → Seen cell (init_found cell x)
  unfolding init_found
  init_found-Seen cell none = tt
  init_found-Seen cell (some (pending, q)) = (refl, tt)
  init_found-Seen cell (some (ready u, q)) =
      init_handed-Seen cell.state (record cell { waiters = q }) refl

  insert_goes-Answered :
      (value : T) (before cell : OnceCell T W) (r : Progress T) (n : ℕ)
      → (cell.state ≡ before.state) × Sees before.state r
      → Jobs cell.state cell.waiters (joined r n)
      → Answered value before n (insert_goes value (r, cell))
  unfolding insert_goes get get_state
  insert_goes-Answered value before cell waiting n (e, u) j = (pending, (cell, refl, e, j))
  insert_goes-Answered value before cell leading n (e, led) j =
      leading-Answered value before cell n (rw led refl) j
  insert_goes-Answered value before cell (finished v) n (e, there) j =
      finished-Answered value v before cell n there (e ∙ there) j

  -- A first poll of `insert` on a sound cell returns. If it is ready with `ok` then the cell held no value,
  -- and holds this one now, with nobody waiting any more; if with `err` then the value is given back
  -- with the one that the cell held and still holds; if it is pending then the state of the cell is
  -- as it was. The cell is sound afterwards, with no more initializers under way.
  pub insert_start-Answered :
      (p : Ptr) (cx : W) (value : T) (s : System T W)
      → IsSound s
      → (r : Poll (Result T (T × T))) × ((after : OnceCell T W) × (insert_start p cx value s.cell
            ≡ some (r, after))
          × Answers value s.cell r after
          × IsSound (record s { cell = after }))
  insert_start-Answered p cx value s v =
      insert_start-fields s.cell.state s.cell.waiters p cx value s.leaders v

  -- The same holds of a later poll of an `insert` that waits, or that was handed the baton.
  pub insert_poll-Answered :
      (will_wake : W → W → Bool) (p : Ptr) (cx : W) (value : T) (s : System T W)
      → Spec.poll will_wake p cx s.cell.waiters ≢ none
      → IsSound s
      → (r : Poll (Result T (T × T))) × ((after : OnceCell T W) × (insert_poll will_wake p cx value
              s.cell
            ≡ some (r, after))
          × Answers value s.cell r after
          × IsSound (record s { cell = after }))
  unfolding insert_poll init_poll
  insert_poll-Answered will_wake p cx value s here v =
      let (r, (cell, e, j)) = init_poll-Found will_wake p cx s here v in
      let seen : Seen s.cell (some (r, cell)) =
        subst (Seen s.cell) e (init_found-Seen s.cell (Spec.poll will_wake p cx s.cell.waiters)) in
      rw e (insert_goes-Answered value s.cell cell r s.leaders seen j)
