-- ===== src/BroadRc.antt =====
-- src/broad_rc.rs: a value shared by one strong reference and any number of weak ones, and gone with
-- the last of either kind.
--
-- The state is the memory of one such value, `none` once it is de-allocated.
pub mod Handles
mod Tests
use unsync.Prelude.{
  ℕ, ◌+◌, Bool, not, Option, none, some, Run, returns, abort, fault, Cmd, and_then, ◌==◌,
  if◌then◌else◌,
}
use unsync.Utils.{checked_increment, wrapping_sub}

pub record Inner (V : Type 0) : Type 0 where
  pub value : V
  pub strong : ℕ
  pub weak : ℕ

module _ {V : Type 0} where
  unfoldable pub new : V → Option (Inner V)
  new value = some (record { value = value; strong = 1; weak = 0 })

  unfoldable pub load : Cmd (Option (Inner V)) (Inner V)
  load s = elim s [ none ↦ fault | some inner ↦ returns inner (some inner) ]

  -- The code adds the counts as `usize`. There is one strong reference at most, and one of the counts was
  -- lowered just before, so that the sum is a `usize`.
  unfoldable pub try_dealloc : Cmd (Option (Inner V)) (Unit {0})
  unfolding load
  try_dealloc s =
      and_then (load s) λ inner t. returns tt (if inner.weak + inner.strong == 0 then none else t)

  unfoldable pub set_weak : Inner V → Option ℕ → Cmd (Option (Inner V)) (Unit {0})
  set_weak inner none s = abort
  set_weak inner (some weak) s = returns tt (some (record inner { weak = weak }))

  -- `BroadRc::weak`
  unfoldable pub downgrade : Cmd (Option (Inner V)) (Unit {0})
  unfolding load checked_increment set_weak
  downgrade s = and_then (load s) λ inner t. set_weak inner (checked_increment inner.weak) t

  -- `get_mut_unchecked` of the strong reference, and of a weak one.
  unfoldable pub strong_get : Cmd (Option (Inner V)) (V × Bool)
  unfolding load
  strong_get s = and_then (load s) λ inner t. returns (inner.value, not (inner.weak == 0)) t

  unfoldable pub weak_get : Cmd (Option (Inner V)) (V × Bool)
  unfolding load
  weak_get s = and_then (load s) λ inner t. returns (inner.value, not (inner.strong == 0)) t

  -- A write through the reference of `get_mut_unchecked`.
  unfoldable pub set_value : V → Cmd (Option (Inner V)) (Unit {0})
  unfolding load
  set_value v s = and_then (load s) λ inner t. returns tt (some (record inner { value = v }))

  unfoldable pub drop_strong : Cmd (Option (Inner V)) (Unit {0})
  unfolding load try_dealloc wrapping_sub
  drop_strong s =
      and_then (load s)
        λ inner t. try_dealloc (some (record inner { strong = wrapping_sub inner.strong 1 }))

  unfoldable pub drop_weak : Cmd (Option (Inner V)) (Unit {0})
  unfolding load try_dealloc wrapping_sub
  drop_weak s =
      and_then (load s)
        λ inner t. try_dealloc (some (record inner { weak = wrapping_sub inner.weak 1 }))
