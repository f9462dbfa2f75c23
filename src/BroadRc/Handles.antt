-- ===== src/BroadRc/Handles.antt =====
-- The two counts of a `BroadRc`, through any sequence of new and dropped references.
use unsync.Prelude.{
  ap, ℕ, ◌+◌, ◌-◌, ◌<◌, ◌≡◌, refl, ◌∙◌, Bool, true, false, not, Option, none, some, List, [], ◌∷◌,
  returns, Cmd, and_then, arith, inl, inr, Bool-cases, ◌==◌, if◌then◌else◌, length,
}
use unsync.Utils.{word_mod, usize_max, checked_increment, wrapping_sub}
use unsync.BroadRc.{
  Inner, load, downgrade, strong_get, weak_get, drop_strong, drop_weak, try_dealloc, set_weak,
}

pub data Call : Type 0 where
  subscribes drops_sender drops_receiver : Call

-- The references that are there: the strong one, and how many weak ones.
pub record Handles : Type 0 where
  pub sender : Bool
  pub receivers : ℕ

-- What ownership admits: a reference is used and dropped while it is there.
abbrev pub handles : Handles → List Call → Option Handles
handles h [] = some h
handles h (subscribes ∷ cs) =
    if h.sender then handles (record h { receivers = h.receivers + 1 }) cs else none
handles h (drops_sender ∷ cs) = if h.sender then handles (record h { sender = false }) cs else none
handles h (drops_receiver ∷ cs) =
    if h.receivers == 0 then none else handles (record h { receivers = h.receivers - 1 }) cs

wrapping_sub-pred : (n : ℕ) → n < word_mod → (n == 0) ≡ false → wrapping_sub n 1 ≡ n - 1
unfolding wrapping_sub
wrapping_sub-pred n small h = ground arith

checked_increment-room : (n : ℕ) → n < usize_max → checked_increment n ≡ some (n + 1)
unfolding checked_increment
checked_increment-room n small = ground arith

module _ {V : Type 0} where
  unfoldable pub call : Call → Cmd (Option (Inner V)) (Unit {0})
  unfolding downgrade drop_strong drop_weak
  call subscribes = downgrade
  call drops_sender = drop_strong
  call drops_receiver = drop_weak

  unfoldable pub calls : List Call → Cmd (Option (Inner V)) (Unit {0})
  unfolding call
  calls [] s = returns tt s
  calls (c ∷ cs) s = and_then (call c s) λ u t. calls cs t

  -- The memory that these references share: there as long as one of them is, with their counts.
  abbrev pub shared_by : V → Handles → Option (Inner V)
  shared_by v h =
      if h.sender
      then some (record { value = v; strong = 1; weak = h.receivers })
      else (if h.receivers == 0
          then none
          else some (record { value = v; strong = 0; weak = h.receivers }))

  pub downgrade-shared_by :
      (v : V) (n : ℕ)
      → n < usize_max
      → downgrade (some (record { value = v; strong = 1; weak = n }))
        ≡ returns tt (some (record { value = v; strong = 1; weak = n + 1 }))
  unfolding downgrade load set_weak
  downgrade-shared_by v n small =
      let next : checked_increment n ≡ some (n + 1) = checked_increment-room n small in
      ap
        (λ x.
          set_weak (record { value = v; strong = 1; weak = n }) x
            (some (record { value = v; strong = 1; weak = n })))
        next

  pub drop_strong-shared_by :
      (v : V) (n : ℕ)
      → drop_strong (some (record { value = v; strong = 1; weak = n }))
        ≡ returns tt (shared_by v (record { sender = false; receivers = n }))
  unfolding drop_strong load try_dealloc wrapping_sub
  drop_strong-shared_by v n = let same : n + 0 ≡ n = omega arith in rw same refl

  pub drop_weak-shared_by :
      (v : V) (a : Bool) (n : ℕ)
      → n < word_mod
      → (n == 0) ≡ false
      → drop_weak (shared_by v (record { sender = a; receivers = n }))
        ≡ returns tt (shared_by v (record { sender = a; receivers = n - 1 }))
  unfolding drop_weak load try_dealloc
  drop_weak-shared_by v true n small h =
      let less : wrapping_sub n 1 ≡ n - 1 = wrapping_sub-pred n small h in
      let some_left : (n - 1 + 1 == 0) ≡ false = ground arith in rw (less, some_left) refl
  drop_weak-shared_by v false n small h =
      let less : wrapping_sub n 1 ≡ n - 1 = wrapping_sub-pred n small h in
      let same : n - 1 + 0 ≡ n - 1 = omega arith in rw (h, less, same) refl

  abbrev shared_or : V → Option Handles → Option (Inner V)
  shared_or v none = none
  shared_or v (some h) = shared_by v h

  calls-fields :
      (v : V) (a : Bool) (n : ℕ) (cs : List Call) {h : Handles}
      → n + length cs < word_mod
      → handles (record { sender = a; receivers = n }) cs ≡ some h
      → calls cs (shared_by v (record { sender = a; receivers = n })) ≡ returns tt (shared_by v h)
  unfolding calls call
  calls-fields v a n [] small e = ap (λ x. returns tt (shared_or v x)) e
  calls-fields v true n (subscribes ∷ cs) small e =
      ap (λ m. and_then m (λ u t. calls cs t)) (downgrade-shared_by v n (omega arith))
      ∙ (calls-fields v true (n + 1) cs (omega arith) e)
  calls-fields v false n (subscribes ∷ cs) small e = cc
  calls-fields v true n (drops_sender ∷ cs) small e =
      ap (λ m. and_then m (λ u t. calls cs t)) (drop_strong-shared_by v n)
      ∙ (calls-fields v false n cs (omega arith) e)
  calls-fields v false n (drops_sender ∷ cs) small e = cc
  calls-fields v a n (drops_receiver ∷ cs) small e = elim (Bool-cases (n == 0)) [
    | inl none_left ↦ let refused : none ≡ some _ = rw none_left at e in cc
    | inr h ↦
        ap (λ m. and_then m (λ u t. calls cs t)) (drop_weak-shared_by v a n (omega arith) h)
        ∙ (calls-fields v a (n - 1) cs (omega arith) (rw h at e))
  ]

  -- From a value shared by the references of `h'` on, through any sequence of new and dropped
  -- references that ownership admits, where there are fewer than 2 ^ 64 of them with all the new ones: no count wraps around or overflows, and the
  -- memory is there, with the number of the references of each kind, as long as one is.
  pub calls-shared_by :
      (v : V) (h' : Handles) (cs : List Call) {h : Handles}
      → h'.receivers + length cs < word_mod
      → handles h' cs ≡ some h
      → calls cs (shared_by v h') ≡ returns tt (shared_by v h)
  calls-shared_by v h' cs small e = calls-fields v h'.sender h'.receivers cs small e

  -- An access through the strong reference tells whether a weak one is there, and one through a
  -- weak reference whether the strong one is; both see the value and change nothing.
  gets-tell :
      (v : V) (a : Bool) (n : ℕ)
      → let s = shared_by v (record { sender = true; receivers = n }) in
        let t = shared_by v (record { sender = a; receivers = n + 1 }) in
        (strong_get s ≡ returns (v, not (n == 0)) s) × (weak_get t ≡ returns (v, a) t)
  unfolding strong_get weak_get load
  gets-tell v true n = (refl, refl)
  gets-tell v false n =
      let some_left : (n + 1 == 0) ≡ false = ground arith in (refl, rw some_left refl)
