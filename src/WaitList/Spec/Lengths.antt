-- ===== src/WaitList/Spec/Lengths.antt =====
-- How many futures wait after a poll and after a drop.
use unsync.Prelude.{ℕ, ◌≤◌, ◌<◌, ◌≡◌, refl, Option, none, some, List, [], ◌∷◌, arith, length}
use unsync.WaitList.Memory.{Ptr}
use unsync.WaitList.Links.{Entry}
use unsync.WaitList.Spec.{
  Queue, update, remove, find_done, find_input, drop_done, drop_waiting, drop,
}

module _ {I W : Type 0} where
  pub length-update :
      (g : Entry I W → Entry I W) (p : Ptr) (es : List (Entry I W))
      → length (update g p es) ≡ length es
  unfolding update
  length-update g p [] = refl
  length-update g p (e ∷ es) = ground (arith, length-update g p es)

  length-remove : (p : Ptr) (es : List (Entry I W)) → length (remove p es) ≤ length es
  unfolding remove
  length-remove p [] = omega arith
  length-remove p (e ∷ es) = ground (arith, length-remove p es)

module _ {I O W : Type 0} where
  -- Fewer futures wait afterwards than the fuel.
  abbrev pub IsShort : {A : Type 0} → Option (A × Queue I O W) → ℕ → Type 0
  IsShort none f = Unit {0}
  IsShort (some (a, q)) f = length q.waiting < f

  drop_done-IsShort :
      (p : Ptr) (o : Option O) (q : Queue I O W) {f : ℕ}
      → length q.waiting < f
      → IsShort (drop_done p o q) f
  unfolding drop_done
  drop_done-IsShort p none q h = tt
  drop_done-IsShort p (some o) q h = h

  drop_waiting-IsShort :
      (p : Ptr) (i : Option I) (q : Queue I O W) {f : ℕ}
      → length q.waiting < f
      → IsShort (drop_waiting p i q) f
  unfolding drop_waiting
  drop_waiting-IsShort p none q h = drop_done-IsShort p (find_done p q.done) q h
  drop_waiting-IsShort p (some i) q h = omega (arith, length-remove p q.waiting)

  pub drop-IsShort :
      (p : Ptr) (q : Queue I O W) {f : ℕ} → length q.waiting < f → IsShort (drop p q) f
  unfolding drop
  drop-IsShort p q h = drop_waiting-IsShort p (find_input p q.waiting) q h
