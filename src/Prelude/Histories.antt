-- ===== src/Prelude/Histories.antt =====
-- Calls one after the other: of code, with what they return, and of what the code promises.
--
-- A promise is `none` where the call cannot be made. `Holds k q s` relates the promise's state to the
-- code's where `k` calls are still to come.
use Prim.Native.Nat.{ℕ, zero, suc}
use mathlib.Core.Path.{◌≡◌, refl, ◌∙◌}
use mathlib.Core.Option.{Option, none, some}
use mathlib.Core.List.{List, [], ◌∷◌, ◌++◌}
use unsync.Prelude.Lists.{length}
use unsync.Prelude.Runs.{Run, returns, Cmd, and_then}

abbrev pub reply {ℓ} : {A B : Type 0} {Q : Type ℓ} → (A → B) → Option (A × Q) → Option (B × Q)
reply f none = none
reply f (some (a, q)) = some (f a, q)

module _ {S C R : Type 0} where
  unfoldable pub calls : (C → Cmd S R) → List C → Cmd S (List R)
  calls call [] s = returns [] s
  calls call (c ∷ cs) s =
      and_then (call c s) λ r t. and_then (calls call cs t) λ rs u. returns (r ∷ rs) u

unfoldable pub promised_after :
    {Q R : Type 0} → (Q → Option (List R × Q)) → Option (R × Q) → Option (List R × Q)
promised_after rest none = none
promised_after rest (some (r, q)) = reply (λ rs. r ∷ rs) (rest q)

module _ {Q R : Type 0} where
  reply-nil : (x : Option (List R × Q)) → x ≡ reply (λ (qs : List R). [] ++ qs) x
  reply-nil none = refl
  reply-nil (some (rs, t)) = refl

  reply-cons :
      (r : R) (rs : List R) (x : Option (List R × Q))
      → reply (λ qs. r ∷ qs) (reply (λ (qs : List R). rs ++ qs) x)
        ≡ reply (λ (qs : List R). (r ∷ rs) ++ qs) x
  reply-cons r rs none = refl
  reply-cons r rs (some (qs, t)) = refl

module _ {Q C R : Type 0} where
  unfoldable pub promises : (C → Q → Option (R × Q)) → List C → Q → Option (List R × Q)
  unfolding promised_after
  promises promised [] q = some ([], q)
  promises promised (c ∷ cs) q = promised_after (promises promised cs) (promised c q)

  module _ (promised : C → Q → Option (R × Q)) where
    -- What calls come to behind others.
    abbrev then_promises : List C → Option (List R × Q) → Option (List R × Q)
    then_promises ds none = none
    then_promises ds (some (rs, t)) = reply (λ qs. rs ++ qs) (promises promised ds t)

    then_promises-cons :
        (ds : List C) (r : R) (x : Option (List R × Q))
        → reply (λ qs. r ∷ qs) (then_promises ds x) ≡ then_promises ds (reply (λ qs. r ∷ qs) x)
    then_promises-cons ds r none = refl
    then_promises-cons ds r (some (rs, t)) = reply-cons r rs (promises promised ds t)

    promised_after-append :
        (cs ds : List C) (o : Option (R × Q))
        → ((q : Q) → promises promised (cs ++ ds) q ≡ then_promises ds (promises promised cs q))
        → promised_after (promises promised (cs ++ ds)) o
          ≡ then_promises ds (promised_after (promises promised cs) o)
    unfolding promised_after
    promised_after-append cs ds none ih = refl
    promised_after-append cs ds (some (r, q)) ih =
        rw (ih q) (then_promises-cons ds r (promises promised cs q))

    promises-append :
        (cs ds : List C) (q : Q)
        → promises promised (cs ++ ds) q ≡ then_promises ds (promises promised cs q)
    unfolding promises
    promises-append [] ds q = reply-nil (promises promised ds q)
    promises-append (c ∷ cs) ds q =
        promised_after-append cs ds (promised c q) (λ t. promises-append cs ds t)

    -- One more call behind others.
    pub promises-snoc :
        (cs : List C) (c : C) (q t u : Q) {rs : List R} {r : R}
        → promises promised cs q ≡ some (rs, t)
        → promised c t ≡ some (r, u)
        → promises promised (cs ++ (c ∷ [])) q ≡ some (rs ++ (r ∷ []), u)
    unfolding promises promised_after
    promises-snoc cs c q t u h k = promises-append cs (c ∷ []) q ∙ rw h (rw k refl)

module _ {Q S : Type 0} (Holds : ℕ → Q → S → Type 0) where
  -- The run returns what is promised, where something is, in a state for which that holds.
  abbrev pub Lands : {A : Type 0} → ℕ → Option (A × Q) → Run S A → Type 0
  Lands k none x = Unit {0}
  Lands k (some (a, q)) x = (s : S) × (x ≡ returns a s) × Holds k q s

  reply-Lands :
      {A B : Type 0} (g : A → B) (k : ℕ) (o : Option (A × Q)) (x : Run S A)
      → Lands k o x
      → Lands k (reply g o) (and_then x λ r s. returns (g r) s)
  reply-Lands g k none x l = tt
  reply-Lands g k (some (a, q)) x (s, run, h) = (s, rw run refl, h)

  module _ {C R : Type 0} (call : C → Cmd S R) (promised : C → Q → Option (R × Q))
      (keeps : (k : ℕ) (c : C) (q : Q) (s : S)
        → Holds (suc k) q s
        → Lands k (promised c q) (call c s)) where
    after-Lands :
        (cs : List C) (o : Option (R × Q)) (x : Run S R)
        → Lands (length cs) o x
        → ((q : Q) (s : S)
            → Holds (length cs) q s
            → Lands zero (promises promised cs q) (calls call cs s))
        → Lands zero
            (promised_after (promises promised cs) o)
            (and_then x λ r t. and_then (calls call cs t) λ rs u. returns (r ∷ rs) u)
    unfolding promised_after
    after-Lands cs none x l next = tt
    after-Lands cs (some (r, q)) x (s, run, h) next =
        rw run
          (reply-Lands (λ rs. r ∷ rs) zero (promises promised cs q) (calls call cs s) (next q s h))

    -- If each call does, then all of them.
    pub calls-Lands :
        (cs : List C) (q : Q) (s : S)
        → Holds (length cs) q s
        → Lands zero (promises promised cs q) (calls call cs s)
    unfolding calls promises
    calls-Lands [] q s h = (s, refl, h)
    calls-Lands (c ∷ cs) q s h =
        after-Lands cs (promised c q) (call c s) (keeps (length cs) c q s h)
          (λ t u h'. calls-Lands cs t u h')
