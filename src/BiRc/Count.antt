-- ===== src/BiRc/Count.antt =====
-- The two references of a `BiRc`, used in any order.
use unsync.Prelude.{
  ℕ, ◌≡◌, refl, sym, subst, Bool, true, false, Option, some, none, List, returns, Cmd, pure, ◌>>=◌,
  ◌>>◌,
}
use unsync.Prelude.Histories.{calls, promises, Lands, calls-Lands}
use unsync.BiRc.{World, new, get_mut_unchecked, set_value, drop, load}
use unsync.Utils.{wrapping_sub}
use unsync.BiRc.Ends.{shared_by}

-- An access through a reference, a write through it, and its drop. The code is the same for both.
pub data Reference : Type 0 where
  first second : Reference

pub data Call (V : Type 0) : Type 0 where
  gets : Reference → Call V
  writes : Reference → V → Call V
  drops : Reference → Call V

pub data Reply (V : Type 0) : Type 0 where
  got : V → Bool → Reply V
  done : Reply V

-- The value, and which of the references are there.
pub record Pair (V : Type 0) : Type 0 where
  pub value : V
  pub has_first : Bool
  pub has_second : Bool

module _ {V : Type 0} where
  abbrev if_there : Bool → Reply V × Pair V → Option (Reply V × Pair V)
  if_there true x = some x
  if_there false x = none

  -- What is promised: `none` where the reference is not there.
  unfoldable pub promised : Call V → Pair V → Option (Reply V × Pair V)
  promised (gets first) s = if_there s.has_first (got s.value s.has_second, s)
  promised (gets second) s = if_there s.has_second (got s.value s.has_first, s)
  promised (writes first value) s = if_there s.has_first (done, record s { value = value })
  promised (writes second value) s = if_there s.has_second (done, record s { value = value })
  promised (drops first) s = if_there s.has_first (done, record s { has_first = false })
  promised (drops second) s = if_there s.has_second (done, record s { has_second = false })

  abbrev pub of_fields : V → Bool → Bool → Pair V
  of_fields v a b = record { value = v; has_first = a; has_second = b }

  module _ {W : Type 0} where
    unfoldable pub call : Call V → Cmd (World V W) (Reply V)
    unfolding get_mut_unchecked set_value drop
    call (gets r) = do present ← get_mut_unchecked; pure (got present.0 present.1)
    call (writes r value) = do set_value value; pure done
    call (drops r) = do drop; pure done

    abbrev Holds : ℕ → Pair V → World V W → Type 0
    Holds k s w = w.memory ≡ shared_by s.value s.has_first s.has_second

    fields-Lands :
        (k : ℕ) (c : Call V) (v : V) (a b : Bool) (ws : List W)
        → Lands Holds k
            (promised c (of_fields v a b))
            (call c (record { memory = shared_by v a b; woken = ws }))
    unfolding promised call get_mut_unchecked set_value drop load wrapping_sub
    fields-Lands k (gets first) v true true ws = (_, refl, refl)
    fields-Lands k (gets first) v true false ws = (_, refl, refl)
    fields-Lands k (gets first) v false b ws = tt
    fields-Lands k (gets second) v true true ws = (_, refl, refl)
    fields-Lands k (gets second) v false true ws = (_, refl, refl)
    fields-Lands k (gets second) v a false ws = tt
    fields-Lands k (writes first x) v true true ws = (_, refl, refl)
    fields-Lands k (writes first x) v true false ws = (_, refl, refl)
    fields-Lands k (writes first x) v false b ws = tt
    fields-Lands k (writes second x) v true true ws = (_, refl, refl)
    fields-Lands k (writes second x) v false true ws = (_, refl, refl)
    fields-Lands k (writes second x) v a false ws = tt
    fields-Lands k (drops first) v true true ws = (_, refl, refl)
    fields-Lands k (drops first) v true false ws = (_, refl, refl)
    fields-Lands k (drops first) v false b ws = tt
    fields-Lands k (drops second) v true true ws = (_, refl, refl)
    fields-Lands k (drops second) v false true ws = (_, refl, refl)
    fields-Lands k (drops second) v a false ws = tt

    call-Lands :
        (k : ℕ) (c : Call V) (s : Pair V) (w : World V W)
        → Holds k s w
        → Lands Holds k (promised c s) (call c w)
    call-Lands k c s w h =
        subst (λ m. Lands Holds k (promised c s) (call c (record w { memory = m }))) (sym h)
          (fields-Lands k c s.value s.has_first s.has_second w.woken)

    -- However the two references of a new `BiRc` are used and dropped, each while it is there: no use
    -- is a fault; each access sees the value that was written last, and tells whether the other
    -- reference is there; and the memory is there as long as one of them is, and then with their
    -- number and that value.
    pub calls-shares :
        (v : V) (cs : List (Call V)) {rs : List (Reply V)} {s : Pair V}
        → promises promised cs (of_fields v true true) ≡ some (rs, s)
        → (w : World V W) × (calls call cs (new v) ≡ returns rs w)
          × (w.memory ≡ shared_by s.value s.has_first s.has_second)
    unfolding new
    calls-shares v cs e =
        subst (λ x. Lands Holds 0 x (calls call cs (new v))) e
          (calls-Lands Holds call promised (λ k c s w h. call-Lands k c s w h) cs
            (of_fields v true true) (new v) refl)
