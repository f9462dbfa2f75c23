-- ===== src/Utils/Deque.antt =====
-- `VecDeque`, as far as the channels use it: the items from front to back, and the capacity that
-- is allocated for them.
use unsync.Prelude.{
  ℕ, ◌≤◌, ◌<◌, Option, none, some, List, [], ◌∷◌, ◌++◌, ◌==◌, if◌then◌else◌, length,
}

-- What the allocator chooses: it may allocate more than was asked for.
pub record Allocator : Type 0 where
  pub with_capacity : ℕ → ℕ
  pub grow : ℕ → ℕ
  pub with_capacity-ge : (n : ℕ) → n ≤ with_capacity n
  pub grow-gt : (n : ℕ) → n < grow n

pub record VecDeque {ℓ} (T : Type ℓ) : Type ℓ where
  pub items : List T
  pub capacity : ℕ

module _ {ℓ} {T : Type ℓ} where
  unfoldable pub len : VecDeque T → ℕ
  len q = length q.items

  unfoldable pub with_capacity : Allocator → ℕ → VecDeque T
  with_capacity al n = record { items = []; capacity = al.with_capacity n }

  unfoldable pub push_back : Allocator → VecDeque T → T → VecDeque T
  push_back al q x = record {
    items = q.items ++ (x ∷ []);
    capacity = if length q.items == q.capacity then al.grow q.capacity else q.capacity;
  }

  unfoldable pub pop_items : List T → ℕ → Option T × VecDeque T
  pop_items [] n = (none, record { items = []; capacity = n })
  pop_items (x ∷ xs) n = (some x, record { items = xs; capacity = n })

  unfoldable pub pop_front : VecDeque T → Option T × VecDeque T
  unfolding pop_items
  pop_front q = pop_items q.items q.capacity
