-- ===== src/WaitList/Links.antt =====
-- Segments of the doubly linked list: the waiters of a list of entries, linked in that order.
use mathlib.Core.Bool.{or_assoc}
use unsync.Prelude.{
  ◌≡◌, refl, ap, Bool, true, false, ◌||◌, Option, some, List, [], ◌∷◌, ◌++◌, arith, ◌==◌, ◌∙◌, ◌⊎◌,
  inl, inr,
}
use unsync.WaitList.Memory.{Ptr, input, Waiter, write}

-- A future that waits: its waiter's address, the input, and the waker of its task.
pub record Entry (I W : Type 0) : Type 0 where
  pub ptr : Ptr
  pub input : I
  pub waker : W

module _ {I W : Type 0} where
  abbrev pub waker_of : Entry I W → W
  waker_of e = e.waker

  -- The first address of a segment that ends at `nx`, and the last of one that begins after `pv`.
  abbrev pub first : List (Entry I W) → Option Ptr → Option Ptr
  first [] nx = nx
  first (e ∷ es) nx = some e.ptr

  abbrev pub last : List (Entry I W) → Option Ptr → Option Ptr
  last [] pv = pv
  last (e ∷ es) pv = last es (some e.ptr)

  abbrev pub has : Ptr → List (Entry I W) → Bool
  has p [] = false
  has p (e ∷ es) = (p == e.ptr) || has p es

  abbrev pub IsDistinct : List (Entry I W) → Type 0
  IsDistinct [] = Unit {0}
  IsDistinct (e ∷ es) = (has e.ptr es ≡ false) × IsDistinct es

  pub first-append :
      (xs ys : List (Entry I W)) (nx : Option Ptr) → first (xs ++ ys) nx ≡ first xs (first ys nx)
  first-append [] ys nx = refl
  first-append (x ∷ xs) ys nx = refl

  pub last-append :
      (xs ys : List (Entry I W)) (pv : Option Ptr) → last (xs ++ ys) pv ≡ last ys (last xs pv)
  last-append [] ys pv = refl
  last-append (x ∷ xs) ys pv = last-append xs ys (some x.ptr)

  pub has-append : (p : Ptr) (xs ys : List (Entry I W)) → has p (xs ++ ys) ≡ (has p xs || has p ys)
  has-append p [] ys = refl
  has-append p (x ∷ xs) ys = rw (has-append p xs ys, or_assoc)

  -- A list is empty, or ends in an entry.
  pub snoc-cases :
      (es : List (Entry I W))
      → (es ≡ []) ⊎ ((xs : List (Entry I W)) × (e : Entry I W) × (es ≡ xs ++ (e ∷ [])))
  snoc-cases [] = inl refl
  snoc-cases (x ∷ es) = elim (snoc-cases es) [
    | inl h ↦ inr ([], x, ap (◌∷◌ x) h)
    | inr (xs, e, h) ↦ inr (x ∷ xs, e, ap (◌∷◌ x) h)
  ]

  pub has-snoc :
      (p : Ptr) (xs : List (Entry I W)) (e : Entry I W)
      → has p (xs ++ (e ∷ [])) ≡ false
      → (has p xs ≡ false) × ((p == e.ptr) ≡ false)
  has-snoc p xs e h = ground (arith, has-append p xs (e ∷ []))

  -- Parts of a list of distinct entries.
  pub IsDistinct-left : (xs ys : List (Entry I W)) → IsDistinct (xs ++ ys) → IsDistinct xs
  IsDistinct-left [] ys d = tt
  IsDistinct-left (x ∷ xs) ys d = ground (arith, has-append x.ptr xs ys, IsDistinct-left xs ys d.1)

  pub IsDistinct-right : (xs ys : List (Entry I W)) → IsDistinct (xs ++ ys) → IsDistinct ys
  IsDistinct-right [] ys d = d
  IsDistinct-right (x ∷ xs) ys d = IsDistinct-right xs ys d.1

  -- What the right part has, the left part has not.
  pub IsDistinct-apart :
      (p : Ptr) (xs ys : List (Entry I W))
      → IsDistinct (xs ++ ys)
      → has p ys ≡ true
      → has p xs ≡ false
  IsDistinct-apart p [] ys d h = refl
  IsDistinct-apart p (x ∷ xs) ys d h =
      ground (arith, has-append x.ptr xs ys, IsDistinct-apart p xs ys d.1 h, d.0)

  pub IsDistinct-middle :
      (xs : List (Entry I W)) (e : Entry I W) (ys : List (Entry I W))
      → IsDistinct (xs ++ (e ∷ ys))
      → IsDistinct (xs ++ ys)
  IsDistinct-middle [] e ys d = d.1
  IsDistinct-middle (x ∷ xs) e ys d =
      ground
        (arith, has-append x.ptr xs ys, has-append x.ptr xs (e ∷ ys), IsDistinct-middle xs e ys d.1)

  pub IsDistinct-snoc :
      (xs : List (Entry I W)) (e : Entry I W)
      → IsDistinct xs
      → has e.ptr xs ≡ false
      → IsDistinct (xs ++ (e ∷ []))
  IsDistinct-snoc [] e d h = (refl, tt)
  IsDistinct-snoc (x ∷ xs) e d h =
      ground (arith, has-append x.ptr xs (e ∷ []), IsDistinct-snoc xs e d.1)

module _ {I O W : Type 0} where
  module _ (cells : Ptr → Option (Waiter I O W)) (p : Ptr) (c : Option (Waiter I O W)) where
    pub write_self : write cells p c p ≡ c
    unfolding write
    write_self = ground arith

    pub write-ne : (a : Ptr) → (a == p) ≡ false → write cells p c a ≡ cells a
    unfolding write
    write-ne a h = rw h

  -- The waiter of an entry that is in the list.
  abbrev pub node : Option Ptr → Option Ptr → Entry I W → Waiter I O W
  node pv nx e = record { next = nx; prev = pv; state = input e.input; waker = some e.waker }

  -- Behind `pv` and before `nx`, the entries' waiters are linked in order.
  abbrev pub Links :
      (Ptr → Option (Waiter I O W)) → Option Ptr → Option Ptr → List (Entry I W) → Type 0
  Links cells pv nx [] = Unit {0}
  Links cells pv nx (e ∷ es) =
      (cells e.ptr ≡ some (node pv (first es nx) e)) × Links cells (some e.ptr) nx es

  module _ (cells : Ptr → Option (Waiter I O W)) where
    pub Links-left :
        (xs ys : List (Entry I W)) (pv nx : Option Ptr)
        → Links cells pv nx (xs ++ ys)
        → Links cells pv (first ys nx) xs
    Links-left [] ys pv nx l = tt
    Links-left (x ∷ xs) ys pv nx l =
        (rw (← first-append xs ys nx) l.0, Links-left xs ys (some x.ptr) nx l.1)

    pub Links-right :
        (xs ys : List (Entry I W)) (pv nx : Option Ptr)
        → Links cells pv nx (xs ++ ys)
        → Links cells (last xs pv) nx ys
    Links-right [] ys pv nx l = l
    Links-right (x ∷ xs) ys pv nx l = Links-right xs ys (some x.ptr) nx l.1

    pub Links-append :
        (xs ys : List (Entry I W)) (pv nx : Option Ptr)
        → Links cells pv (first ys nx) xs
        → Links cells (last xs pv) nx ys
        → Links cells pv nx (xs ++ ys)
    Links-append [] ys pv nx l r = r
    Links-append (x ∷ xs) ys pv nx l r =
        (rw (first-append xs ys nx) l.0, Links-append xs ys (some x.ptr) nx l.1 r)

    -- A segment survives any change that spares its own waiters.
    pub Links-frame :
        (after : Ptr → Option (Waiter I O W)) (es : List (Entry I W)) (pv nx : Option Ptr)
        → ((p : Ptr) → has p es ≡ true → after p ≡ cells p)
        → Links cells pv nx es
        → Links after pv nx es
    Links-frame after [] pv nx same l = tt
    Links-frame after (e ∷ es) pv nx same l = (
      same e.ptr (ground arith) ∙ l.0,
      Links-frame after es (some e.ptr) nx (λ p h. same p (ground arith)) l.1,
    )

    pub Links-write :
        (p : Ptr) (c : Option (Waiter I O W)) (es : List (Entry I W)) (pv nx : Option Ptr)
        → has p es ≡ false
        → Links cells pv nx es
        → Links (write cells p c) pv nx es
    unfolding write
    Links-write p c es pv nx out l =
        Links-frame (write cells p c) es pv nx (λ a h. ground (arith)) l
