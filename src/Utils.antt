-- ===== src/Utils.antt =====
-- src/utils.rs, and what the crate uses of `core`: machine words, wakers, and `VecDeque`.
--
-- A `usize` and a `u64` have 64 bits. A waker is a value of any type `W`; `will_wake` is the
-- test of that name on wakers, an argument of the code that calls it. Waking is an effect: the
-- code that wakes carries the list of the wakers woken so far, the newest first.
mod Wakers
mod Deque
pub mod Sleepers
unfoldable pub use Wakers.*
unfoldable pub use Deque.*
use unsync.Prelude.{ℕ, ◌+◌, ◌-◌, ◌%◌, ◌^◌, Option, none, some, ◌==◌, if◌then◌else◌}

abbrev pub word_mod : ℕ
word_mod = 2 ^ 64

abbrev pub usize_max : ℕ
usize_max = 2 ^ 64 - 1

-- `none` is the abort of the process.
unfoldable pub checked_increment : ℕ → Option ℕ
checked_increment value = if value == usize_max then none else some (value + 1)

unfoldable pub wrapping_add : ℕ → ℕ → ℕ
wrapping_add a b = (a + b) % word_mod

unfoldable pub wrapping_sub : ℕ → ℕ → ℕ
wrapping_sub a b = (a + word_mod - b) % word_mod
