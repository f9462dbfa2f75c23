-- ===== src/BiRc.antt =====
-- src/bi_rc.rs: a value shared by at most two references, and gone with the last of them.
--
-- The memory of one `BiRc`, `none` once it is de-allocated, stands beside the wakers that its users
-- have woken. A write through the reference of `get_mut_unchecked` is `set_value`.
pub mod Count
pub mod Ends
mod Tests
use unsync.Prelude.{
  ℕ, Bool, Option, none, some, List, [], Run, returns, fault, Cmd, and_then, ◌==◌, if◌then◌else◌,
}
use unsync.Utils.{wrapping_sub, wake}

pub record Inner (V : Type 0) : Type 0 where
  pub value : V
  pub count : ℕ

pub record World (V W : Type 0) : Type 0 where
  pub memory : Option (Inner V)
  pub woken : List W

module _ {V W : Type 0} where
  -- The box, of which `new` hands out two references.
  unfoldable pub new : V → World V W
  new value = record { memory = some (record { value = value; count = 2 }); woken = [] }

  unfoldable pub load : Cmd (World V W) (Inner V)
  load s = elim s.memory [ none ↦ fault | some inner ↦ returns inner s ]

  unfoldable pub get_mut_unchecked : Cmd (World V W) (V × Bool)
  unfolding load
  get_mut_unchecked s = and_then (load s) λ inner t. returns (inner.value, inner.count == 2) t

  unfoldable pub set_value : V → Cmd (World V W) (Unit {0})
  unfolding load
  set_value v s =
      and_then (load s)
        λ inner t. returns tt (record t { memory = some (record inner { value = v }) })

  unfoldable pub drop : Cmd (World V W) (Unit {0})
  unfolding load wrapping_sub
  drop s = and_then (load s) λ inner t.
      let count = wrapping_sub inner.count 1 in
      returns tt
        (record t { memory = if count == 0 then none else some (record inner { count = count }) })

  -- The waker in a slot is woken.
  unfoldable pub wake_slot : Option W → Cmd (World V W) (Unit {0})
  unfolding wake
  wake_slot slot s = returns tt (record s { woken = wake slot s.woken })
