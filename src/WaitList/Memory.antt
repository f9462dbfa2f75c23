-- ===== src/WaitList/Memory.antt =====
-- src/wait_list.rs: the types, and the memory that its raw pointers reach.
--
-- A `NonNull<UnsafeCell<Waiter>>` is an address; `cells` holds the waiters that are alive. A
-- fault is a read through a dangling pointer or of the wrong member of the union `State`.
pub use unsync.Prelude.{
  Run, returns, panic, abort, fault, and_then, ◌>>=◌, ◌>>◌, debug_assert, Cmd, pure,
}
use unsync.Prelude.{ℕ, Bool, true, false, Option, none, some, List, ◌==◌, if◌then◌else◌}

abbrev pub Ptr : Type 0
Ptr = ℕ

pub data State (I O : Type 0) : Type 0 where
  input : I → State I O
  output : O → State I O

pub record Waiter (I O W : Type 0) : Type 0 where
  pub next : Option Ptr
  pub prev : Option Ptr
  pub state : State I O
  pub waker : Option W

pub record Inner : Type 0 where
  pub head : Option Ptr
  pub tail : Option Ptr

-- A `WaitList` with the memory round it.
pub record World (I O W : Type 0) : Type 0 where
  pub borrowed : Bool
  pub inner : Inner
  pub cells : Ptr → Option (Waiter I O W)
  pub woken : List W

-- `==` of `Option<NonNull<_>>`
abbrev pub ptr_eq : Option Ptr → Option Ptr → Bool
ptr_eq none none = true
ptr_eq (some p) (some q) = p == q
ptr_eq none (some q) = false
ptr_eq (some p) none = false

module _ {I O W : Type 0} where
  unfoldable pub write :
      (Ptr → Option (Waiter I O W)) → Ptr → Option (Waiter I O W) → Ptr → Option (Waiter I O W)
  write cells p c a = if a == p then c else cells a

  unfoldable pub load : Ptr → World I O W → Run (World I O W) (Waiter I O W)
  load p s = elim (s.cells p) [ none ↦ fault | some w ↦ returns w s ]

  unfoldable pub store : Ptr → Waiter I O W → World I O W → Run (World I O W) (Unit {0})
  store p w s = returns tt (record s { cells = write s.cells p (some w) })
