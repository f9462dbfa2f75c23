-- ===== src/Broadcast/Slab.antt =====
-- What src/broadcast.rs uses of the crate slab, which is not part of this repository: a store that
-- chooses the index of each item itself.
--
-- `items` is what an iteration visits, in its order, with the indices. `IsLawful` is what the
-- documentation of slab promises of each operation, said of that.
pub mod Lists
pub mod Keys
pub mod Rows
use unsync.Prelude.{ℕ, ◌≡◌, Option, none, some, List, [], ◌∷◌, ◌++◌, ◌==◌, if◌then◌else◌, length}

module _ {A : Type 0} where
  abbrev pub lookup : ℕ → List (ℕ × A) → Option A
  lookup k [] = none
  lookup k ((j, a) ∷ xs) = if k == j then some a else lookup k xs

  abbrev pub replace : ℕ → A → List (ℕ × A) → List (ℕ × A)
  replace k b [] = []
  replace k b ((j, a) ∷ xs) = if k == j then (j, b) ∷ xs else (j, a) ∷ replace k b xs

  abbrev pub remove : ℕ → List (ℕ × A) → List (ℕ × A)
  remove k [] = []
  remove k ((j, a) ∷ xs) = if k == j then xs else (j, a) ∷ remove k xs

  -- A loop over the items that may change each of them, and carries `b` along.
  abbrev pub visit : {B : Type 0} → (A → B → A × B) → List (ℕ × A) → B → List (ℕ × A) × B
  visit f [] b = ([], b)
  visit f ((k, a) ∷ xs) b =
      let (a', b') = f a b in let (xs', b'') = visit f xs b' in ((k, a') ∷ xs', b'')

  -- `ys` is `xs` with a new item somewhere in it, at an index that was free.
  pub record Inserted (k : ℕ) (a : A) (xs ys : List (ℕ × A)) : Type 0 where
    pub before : List (ℕ × A)
    pub behind : List (ℕ × A)
    pub old : xs ≡ before ++ behind
    pub whole : ys ≡ before ++ ((k, a) ∷ behind)
    pub free : lookup k xs ≡ none

pub record SlabOf (A : Type 0) : Type 1 where
  pub Slab : Type 0
  pub new : Slab
  pub insert : A → Slab → ℕ × Slab
  pub get : ℕ → Slab → Option A
  pub put : ℕ → A → Slab → Slab
  pub try_remove : ℕ → Slab → Slab
  pub len : Slab → ℕ
  pub items : Slab → List (ℕ × A)
  pub iter_mut : {B : Type 0} → (A → B → A × B) → Slab → B → Slab × B

pub record IsLawful {A : Type 0} (S : SlabOf A) : Type 1 where
  pub items-new : S.items S.new ≡ []
  pub items-insert :
      (a : A) (s : S.Slab) → Inserted (S.insert a s).0 a (S.items s) (S.items (S.insert a s).1)
  pub get-items : (k : ℕ) (s : S.Slab) → S.get k s ≡ lookup k (S.items s)
  pub items-put : (k : ℕ) (a : A) (s : S.Slab) → S.items (S.put k a s) ≡ replace k a (S.items s)
  pub items-try_remove : (k : ℕ) (s : S.Slab) → S.items (S.try_remove k s) ≡ remove k (S.items s)
  pub len-items : (s : S.Slab) → S.len s ≡ length (S.items s)
  pub items-iter_mut :
      {B : Type 0} (f : A → B → A × B) (s : S.Slab) (b : B)
      → S.items (S.iter_mut f s b).0 ≡ (visit f (S.items s) b).0
  pub iter_mut-visit :
      {B : Type 0} (f : A → B → A × B) (s : S.Slab) (b : B)
      → (S.iter_mut f s b).1 ≡ (visit f (S.items s) b).1
