-- ===== src/Semaphore/Order.antt =====
-- The order in which `release_permits` serves those that wait.
use mathlib.Core.List.{map, reverse}
use unsync.Prelude.{
  ℕ, zero, suc, ◌+◌, ◌-◌, ◌≤◌, ◌<◌, ◌≡◌, refl, sym, ap, subst, ◌∙◌, some, List, [], ◌∷◌, ◌++◌,
  arith, reverse-cons-append, inl, inr, Bool-cases, length, ltb,
}
use unsync.Utils.{wrapping_add}
use unsync.WaitList.{Ptr}
use unsync.WaitList.Links.{Entry, waker_of}
use unsync.Semaphore.{
  Fairness, fair, unfair, WakeUp, unfair_woken, fair_grant, Semaphore, release_loop,
  release_permits, wake_head,
}
use unsync.Semaphore.Release.{Blocked, sem}

-- What a future that is woken is handed.
abbrev pub wake_of : Fairness → ℕ → WakeUp
wake_of fair wanted = fair_grant wanted
wake_of unfair wanted = unfair_woken

-- A fair release takes what it grants.
abbrev pub less_granted : Fairness → ℕ → ℕ → ℕ
less_granted fair permits wanted = permits - wanted
less_granted unfair permits wanted = permits

less-none : (fairness : Fairness) (avail : ℕ) → avail ≡ less_granted fairness avail 0
less-none fair avail = omega arith
less-none unfair avail = refl

less-twice :
    (fairness : Fairness) (avail wanted more : ℕ)
    → less_granted fairness (less_granted fairness avail wanted) more
      ≡ less_granted fairness avail (wanted + more)
less-twice fair avail wanted more = omega arith
less-twice unfair avail wanted more = refl

-- The loop's variable `permits`, against the field.
abbrev Even : Fairness → ℕ → ℕ → Type 0
Even fair avail permits = avail ≡ permits
Even unfair avail permits = Unit {0}

Even-less :
    (fairness : Fairness) (avail permits wanted : ℕ)
    → Even fairness avail permits
    → Even fairness (less_granted fairness avail wanted) (permits - wanted)
Even-less fair avail permits wanted h = omega arith
Even-less unfair avail permits wanted h = tt

Even-start : (fairness : Fairness) (permits : ℕ) → Even fairness permits permits
Even-start fair permits = refl
Even-start unfair permits = tt

module _ {W : Type 0} where
  abbrev pub wanted_by : List (Entry ℕ W) → ℕ
  wanted_by [] = 0
  wanted_by (e ∷ es) = e.input + wanted_by es

  abbrev pub handed : Fairness → Entry ℕ W → Ptr × WakeUp
  handed fairness e = (e.ptr, wake_of fairness e.input)

  -- What comes of `s` where those in `served` are served with `permits`, and no more can be.
  pub record Serves (fairness : Fairness) (permits : ℕ) (s t : Semaphore W) : Type 0 where
    pub served : List (Entry ℕ W)
    pub whole : s.waiters.waiting ≡ served ++ t.waiters.waiting
    pub fits : wanted_by served ≤ permits
    pub most : Blocked permits (wanted_by served) t.waiters.waiting
    pub done : t.waiters.done ≡ reverse (map (handed fairness) served) ++ s.waiters.done
    pub woken : t.waiters.woken ≡ reverse (map waker_of served) ++ s.waiters.woken
    pub permits_left : t.permits ≡ less_granted fairness s.permits (wanted_by served)
    pub total_same : t.total_permits ≡ s.total_permits

  none-Serves :
      (fairness : Fairness) (permits : ℕ) (s : Semaphore W)
      → Blocked permits 0 s.waiters.waiting
      → Serves fairness permits s s
  none-Serves fairness permits s b = record {
    served = [];
    whole = refl;
    fits = omega arith;
    most = b;
    done = refl;
    woken = refl;
    permits_left = less-none fairness s.permits;
    total_same = refl;
  }

  Blocked-more :
      (permits wanted reserved : ℕ) (es : List (Entry ℕ W))
      → wanted ≤ permits
      → Blocked (permits - wanted) reserved es
      → Blocked permits (wanted + reserved) es
  Blocked-more permits wanted reserved [] h b = tt
  Blocked-more permits wanted reserved (e ∷ es) h b = omega arith

  next-Serves :
      (fairness : Fairness) (e : Entry ℕ W) (es : List (Entry ℕ W)) (ds : List (Ptr × WakeUp))
      (ws : List W) (avail total permits : ℕ) (t : Semaphore W)
      → e.input ≤ permits
      → Serves fairness
          (permits - e.input)
          (sem es
            (handed fairness e ∷ ds)
            (e.waker ∷ ws)
            (less_granted fairness avail e.input)
            total)
          t
      → Serves fairness permits (sem (e ∷ es) ds ws avail total) t
  unfolding sem
  next-Serves fairness e es ds ws avail total permits t h v = record {
    served = e ∷ v.served;
    whole = ap (◌∷◌ e) v.whole;
    fits = omega (arith, v.fits);
    most = Blocked-more permits e.input (wanted_by v.served) t.waiters.waiting h v.most;
    done = v.done ∙ reverse-cons-append (handed fairness e) (map (handed fairness) v.served) ds;
    woken = v.woken ∙ reverse-cons-append e.waker (map waker_of v.served) ws;
    permits_left = v.permits_left ∙ less-twice fairness avail e.input (wanted_by v.served);
    total_same = v.total_same;
  }

  wake_head-sem :
      (fairness : Fairness) (e : Entry ℕ W) (es : List (Entry ℕ W)) (ds : List (Ptr × WakeUp))
      (ws : List W) (avail total permits : ℕ)
      → Even fairness avail permits
      → wake_head fairness (permits - e.input) e.input (sem (e ∷ es) ds ws avail total)
        ≡ sem es (handed fairness e ∷ ds) (e.waker ∷ ws) (less_granted fairness avail e.input) total
  unfolding wake_head sem
  wake_head-sem fair e es ds ws avail total permits h = rw h
  wake_head-sem unfair e es ds ws avail total permits h = refl

  release_loop-Serves :
      (f : ℕ) (fairness : Fairness) (es : List (Entry ℕ W)) (ds : List (Ptr × WakeUp)) (ws : List W)
      (avail total permits : ℕ)
      → length es < f
      → Even fairness avail permits
      → (t : Semaphore W) × (release_loop f fairness permits (sem es ds ws avail total) ≡ some t)
        × Serves fairness permits (sem es ds ws avail total) t
  unfolding release_loop sem
  release_loop-Serves zero fairness es ds ws avail total permits h k = absurd (omega arith)
  release_loop-Serves (suc f) fairness [] ds ws avail total permits h k =
      (sem [] ds ws avail total, refl, none-Serves fairness permits (sem [] ds ws avail total) tt)
  release_loop-Serves (suc f) fairness (e ∷ es) ds ws avail total permits h k =
      elim (Bool-cases (ltb permits e.input)) [
        | inl less ↦ (
          sem (e ∷ es) ds ws avail total,
          rw (less, release_loop),
          none-Serves fairness permits (sem (e ∷ es) ds ws avail total) (ground arith),
        )
        | inr enough ↦
            let (t, run, v) =
              release_loop-Serves f fairness es (handed fairness e ∷ ds) (e.waker ∷ ws)
                (less_granted fairness avail e.input) total (permits - e.input) (omega arith)
                (Even-less fairness avail permits e.input k) in
            (
              t,
              rw (enough, release_loop)
                  (subst (λ u. release_loop f fairness (permits - e.input) u ≡ some t)
                    (sym (wake_head-sem fairness e es ds ws avail total permits k)) run),
              next-Serves fairness e es ds ws avail total permits t (ground arith) v,
            )
      ]

  -- `release_permits` returns, and serves those that wait in the order in which they began to: as
  -- many from the front as want no more together than the permits that are available with those released, added
  -- as a `usize`, and no others, even where these want less. Each of them is handed what it wants by a fair release, which
  -- takes that much, and no more than a wake by an unfair one; and its task is woken, the oldest first.
  pub release_permits-Serves :
      (n : ℕ) (fairness : Fairness) (s : Semaphore W)
      → let permits = wrapping_add s.permits n in
        (t : Semaphore W) × (release_permits n fairness s ≡ some t)
        × Serves fairness permits (record s { permits = permits }) t
  unfolding release_permits sem
  release_permits-Serves n fairness s =
      let permits = wrapping_add s.permits n in
      release_loop-Serves (suc (length s.waiters.waiting)) fairness s.waiters.waiting s.waiters.done
        s.waiters.woken permits s.total_permits permits (omega arith) (Even-start fairness permits)
