-- ===== src/BiRc/Ends.antt =====
-- The memory of a `BiRc` by which of its two references are there.
use unsync.Prelude.{Bool, true, false, Option, none, some}
use unsync.BiRc.{Inner}

module _ {V : Type 0} where
  abbrev pub shared_by : V → Bool → Bool → Option (Inner V)
  shared_by v true true = some (record { value = v; count = 2 })
  shared_by v true false = some (record { value = v; count = 1 })
  shared_by v false true = some (record { value = v; count = 1 })
  shared_by v false false = none
