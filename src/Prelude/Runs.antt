-- ===== src/Prelude/Runs.antt =====
-- Runs of stateful code: a command returns a value and the new state, or ends without one.
--
-- A run panics, aborts the process, or commits a fault: undefined behaviour, such as the use of
-- memory that is gone.
use mathlib.Core.Bool.{Bool, true, false}

pub data Run (S A : Type 0) : Type 0 where
  returns : A → S → Run S A
  panic : Run S A
  abort : Run S A
  fault : Run S A

module _ {S A B : Type 0} where
  abbrev pub and_then : Run S A → (A → S → Run S B) → Run S B
  and_then (returns a s) k = k a s
  and_then panic k = panic
  and_then abort k = abort
  and_then fault k = fault

  infixl 5 ◌>>=◌ ◌>>◌
  abbrev pub ◌>>=◌ : (S → Run S A) → (A → S → Run S B) → S → Run S B
  ◌>>=◌ m k s = and_then (m s) k

  abbrev pub ◌>>◌ : (S → Run S A) → (S → Run S B) → S → Run S B
  ◌>>◌ m k s = and_then (m s) (λ _. k)

-- `debug_assert!`
abbrev pub debug_assert : {S : Type 0} → Bool → S → Run S (Unit {0})
debug_assert true s = returns tt s
debug_assert false s = panic

abbrev pub Cmd : Type 0 → Type 0 → Type 0
Cmd S A = S → Run S A

abbrev pub pure : {S A : Type 0} → A → Cmd S A
pure = returns
