-- ===== src/Spsc/System/Sound.antt =====
-- What holds of a channel and its log.
use unsync.Prelude.{
  ℕ, ◌≤◌, ◌<◌, ◌≡◌, refl, sym, subst, Bool, true, false, not, ◌||◌, Option, none, some, [], ◌∷◌,
  ◌++◌, arith, is_some, length, length-append,
}
use unsync.Utils.{Allocator, len, push_back}
use unsync.Utils.Sleepers.{SleepsOnlyIf}
use unsync.BiRc.Ends.{shared_by}
use unsync.Spsc.{Shared, at_capacity}
use unsync.Spsc.System.{Log, System}

module _ {T W : Type 0} where
  -- The room in the buffer: without bound, or `n` and never more.
  abbrev pub Room : Option ℕ → Shared T W → Type 0
  Room none inner = inner.unbounded ≡ true
  Room (some n) inner =
      (inner.unbounded ≡ false) × (inner.buf.capacity ≡ n) × (length inner.buf.items ≤ n)

  pub Room-push :
      (room : Option ℕ) (al : Allocator) (inner : Shared T W) (value : T)
      → at_capacity inner ≡ false
      → Room room inner
      → Room room (record inner { buf = push_back al inner.buf value })
  unfolding at_capacity push_back len
  Room-push none al inner value free h = h
  Room-push (some n) al inner value free (u, c, l) =
      let fits : length inner.buf.items < n = ground arith in
      (u, ground arith, rw (length-append inner.buf.items (value ∷ [])) (omega arith))

  -- The wakers have no part in it.
  pub Room-tx :
      (room : Option ℕ) (inner : Shared T W) (slot : Option W)
      → Room room inner
      → Room room (record inner { tx = slot })
  Room-tx none inner slot h = h
  Room-tx (some n) inner slot h = h

  pub Room-rx :
      (room : Option ℕ) (inner : Shared T W) (slot : Option W)
      → Room room inner
      → Room room (record inner { rx = slot })
  Room-rx none inner slot h = h
  Room-rx (some n) inner slot h = h

  module _ (task : W → ℕ) (room : Option ℕ) where
    -- `inner` is what the ends share, or what they shared when the last of them was dropped.
    pub record IsSound (inner : Shared T W) (s : System T W) : Type 0 where
      pub memory : s.memory ≡ shared_by inner s.sender s.receiver
      pub order : s.log.accepted ≡ s.log.received ++ inner.buf.items
      pub capacity : Room room inner
      pub sending : (not (is_some s.log.sending) || s.sender) ≡ true
      pub tx :
          SleepsOnlyIf task
            ((at_capacity inner ≡ true) × (s.receiver ≡ true) × (is_some s.log.sending ≡ true))
            inner.tx
            s.log.tx_asleep
      pub rx :
          SleepsOnlyIf task
            ((inner.buf.items ≡ []) × (s.sender ≡ true) × (s.receiver ≡ true))
            inner.rx
            s.log.rx_asleep

    abbrev pub Goes : Option (System T W) → Type 0
    Goes x = (inner : Shared T W) × ((t : System T W) × (x ≡ some t) × IsSound inner t)

    abbrev pub system : Shared T W → Bool → Bool → Log T → System T W
    system inner a b l = record { memory = shared_by inner a b; sender = a; receiver = b; log = l }

    -- It is enough to look at systems whose memory is written out.
    pub Goes-memory :
        (f : System T W → Option (System T W)) (inner : Shared T W) (s : System T W)
        → IsSound inner s
        → (IsSound inner (system inner s.sender s.receiver s.log)
            → Goes (f (system inner s.sender s.receiver s.log)))
        → Goes (f s)
    Goes-memory f inner s v g =
        subst (λ m. Goes (f (record s { memory = m }))) (sym v.memory)
          (g (record {
            memory = refl;
            order = v.order;
            capacity = v.capacity;
            sending = v.sending;
            tx = v.tx;
            rx = v.rx;
          }))
