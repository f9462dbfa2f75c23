-- ===== src/Semaphore/System/Accounts.antt =====
-- No step loses a permit or makes one up, and in a calm run nobody at the front is forgotten.
use unsync.Prelude.{
  ℕ, ◌+◌, ◌<◌, ◌≡◌, refl, sym, subst, ◌∙◌, Bool, true, false, some, none, Option, List, [], ◌∷◌,
  ◌++◌, arith, inl, inr, Poll, ready, pending, Option-cases,
}
use unsync.Utils.{word_mod, wrapping_sub}
use unsync.WaitList.{Ptr}
use unsync.Semaphore.{Fairness, Semaphore, add_permits_with, release_permits, leak, checked_add}
use unsync.Semaphore.Release.{Knows, IsSettled, on_hand, Released, release_permits-Released}
use unsync.Semaphore.Acquire.{Tries, try_acquire-Tries, try_acquire_unfair-Tries, Kept, handed_out}
use unsync.Semaphore.System.{System, try_of, receive}

abbrev pub sum : List ℕ → ℕ
sum [] = 0
sum (n ∷ ns) = n + sum ns

sum-middle : (xs : List ℕ) (n : ℕ) (ys : List ℕ) → sum (xs ++ (n ∷ ys)) ≡ n + sum (xs ++ ys)
sum-middle [] n ys = refl
sum-middle (x ∷ xs) n ys = omega (arith, sum-middle xs n ys)

checked_add-some : (a n t : ℕ) → checked_add a n ≡ some t → (t ≡ a + n) × (t < word_mod)
checked_add-some a n t h = ground arith

module _ {W : Type 0} where
  pub try_of-Tries : (steal : Bool) → Tries {W = W} (try_of steal)
  try_of-Tries true = try_acquire_unfair-Tries
  try_of-Tries false = try_acquire-Tries

  -- Every permit is available, in a grant, or held; and their number is a `usize`.
  pub record IsSound (s : System W) : Type 0 where
    pub knows : Knows s.wants s.sem
    pub accounts : on_hand s.sem + sum s.held ≡ s.sem.total_permits
    pub small : s.sem.total_permits < word_mod

  pub record Next (Calm : Type 0) (t : System W) : Type 0 where
    pub sound : IsSound t
    pub settled : Calm → IsSettled t.wants t.sem

  abbrev ReleasedIf : (Ptr → ℕ) → Semaphore W → Option (Semaphore W) → Type 0
  ReleasedIf wants s none = Unit {0}
  ReleasedIf wants s (some t) = Released wants s t

  release-Released :
      (wants : Ptr → ℕ) (n : ℕ) (fairness : Fairness) (s : Semaphore W) {t : Semaphore W}
      → release_permits n fairness s ≡ some t
      → Knows wants s
      → s.permits + n < word_mod
      → Released wants (record s { permits = s.permits + n }) t
  release-Released wants n fairness s h k small =
      let (t', run, r) = release_permits-Released wants n fairness s k small in
      subst (ReleasedIf wants (record s { permits = s.permits + n })) (sym run ∙ h) r

  module _ (s : System W) (v : IsSound s) where
    abbrev Calm : Type 0
    Calm = IsSettled s.wants s.sem

    Released-Next :
        (n total : ℕ) (held : List ℕ) (sem : Semaphore W)
        → Released s.wants (record s.sem { permits = s.sem.permits + n; total_permits = total }) sem
        → n + on_hand s.sem + sum held ≡ total
        → total < word_mod
        → Next Calm (record s { sem = sem; held = held })
    Released-Next n total held sem r e small = record {
      sound = record {
        knows = r.knows;
        accounts = omega (arith, r.on_hand_same, r.total_same);
        small = omega (arith, r.total_same);
      };
      settled = λ c. r.settled;
    }

    pub add-Next :
        (fairness : Fairness) (n : ℕ) (sem : Semaphore W)
        → add_permits_with fairness n s.sem ≡ some sem
        → Next Calm (record s { sem = sem })
    unfolding add_permits_with
    add-Next fairness n sem h = elim (Option-cases (checked_add s.sem.total_permits n)) [
      | inl e ↦ let none_added = rw (e, add_permits_with) at h in cc
      | inr (total, e) ↦
          let (same, small) = checked_add-some s.sem.total_permits n total e in
          let r =
            release-Released s.wants n fairness (record s.sem { total_permits = total })
              (rw (e, add_permits_with) at h)
              (record { inputs = v.knows.inputs; grants = v.knows.grants })
              (omega (arith, v.accounts)) in
          Released-Next n total s.held sem r (omega (arith, v.accounts)) small
    ]

    pub give-Next :
        (fairness : Fairness) (n : ℕ) (xs ys : List ℕ) (sem : Semaphore W)
        → s.held ≡ xs ++ (n ∷ ys)
        → release_permits n fairness s.sem ≡ some sem
        → Next Calm (record s { sem = sem; held = xs ++ ys })
    give-Next fairness n xs ys sem e h =
        let total : sum s.held ≡ n + sum (xs ++ ys) = rw e (sum-middle xs n ys) in
        let r =
          release-Released s.wants n fairness s.sem h v.knows
            (omega (arith, v.accounts, v.small)) in
        Released-Next n s.sem.total_permits (xs ++ ys) sem r (omega (arith, v.accounts)) v.small

    pub leak-Next :
        (n : ℕ) (xs ys : List ℕ)
        → s.held ≡ xs ++ (n ∷ ys)
        → Next Calm (record s { sem = leak n s.sem; held = xs ++ ys })
    unfolding leak wrapping_sub
    leak-Next n xs ys e =
        let total : sum s.held ≡ n + sum (xs ++ ys) = rw e (sum-middle xs n ys) in
        record {
          sound = record {
            knows = record { inputs = v.knows.inputs; grants = v.knows.grants };
            accounts = omega (arith, v.accounts, v.small);
            small = omega arith;
          };
          settled = λ c. c;
        }

    pub Kept-Next :
        (C : Type 0) (wants : Ptr → ℕ) (r : Poll ℕ) (from sem : Semaphore W)
        → Kept C wants (handed_out r) from sem
        → on_hand from ≡ on_hand s.sem
        → from.total_permits ≡ s.sem.total_permits
        → Next C (record { sem = sem; wants = wants; held = receive r s.held })
    Kept-Next C wants pending from sem k h t = record {
      sound = record {
        knows = k.knows;
        accounts = omega (arith, k.on_hand_less, k.total_same, v.accounts);
        small = omega (arith, k.total_same, v.small);
      };
      settled = k.settled;
    }
    Kept-Next C wants (ready n) from sem k h t = record {
      sound = record {
        knows = k.knows;
        accounts = omega (arith, k.on_hand_less, k.total_same, v.accounts);
        small = omega (arith, k.total_same, v.small);
      };
      settled = k.settled;
    }
