-- ===== src/WaitList/Spec.antt =====
-- What a wait list promises, with no pointers: the futures that wait, oldest first, and the
-- outputs handed to futures that have been woken and have not run yet.
pub mod Cases
pub mod Lengths
use unsync.Prelude.{
  ◌≡◌, refl, ap, Bool, true, false, ◌||◌, Option, none, some, List, [], ◌∷◌, ◌++◌, arith, ◌==◌,
  if◌then◌else◌, Result, ok, err, Poll, ready, pending, Bool-cases, inl, inr,
}
use unsync.WaitList.Memory.{Ptr, State, input, output}
use unsync.WaitList.Links.{Entry, has}

pub record Queue (I O W : Type 0) : Type 0 where
  pub waiting : List (Entry I W)
  pub done : List (Ptr × O)
  pub woken : List W

module _ {I W : Type 0} where
  unfoldable pub remove : Ptr → List (Entry I W) → List (Entry I W)
  remove p [] = []
  remove p (e ∷ es) = if p == e.ptr then es else e ∷ remove p es

  unfoldable pub repoll : (W → W → Bool) → W → Entry I W → Entry I W
  repoll will_wake cx e = if will_wake e.waker cx then e else record e { waker = cx }

  unfoldable pub update : (Entry I W → Entry I W) → Ptr → List (Entry I W) → List (Entry I W)
  update f p [] = []
  update f p (e ∷ es) = if p == e.ptr then f e ∷ es else e ∷ update f p es

  unfoldable pub find_input : Ptr → List (Entry I W) → Option I
  find_input p [] = none
  find_input p (e ∷ es) = if p == e.ptr then some e.input else find_input p es

  unfoldable pub head_input : List (Entry I W) → Option I
  head_input [] = none
  head_input (e ∷ es) = some e.input

  unfoldable pub change_head : (I → I) → List (Entry I W) → List (Entry I W)
  change_head f [] = []
  change_head f (e ∷ es) = record e { input = f e.input } ∷ es

module _ {O : Type 0} where
  unfoldable pub find_done : Ptr → List (Ptr × O) → Option O
  find_done p [] = none
  find_done p ((q, o) ∷ ds) = if p == q then some o else find_done p ds

  unfoldable pub remove_done : Ptr → List (Ptr × O) → List (Ptr × O)
  remove_done p [] = []
  remove_done p ((q, o) ∷ ds) = if p == q then ds else (q, o) ∷ remove_done p ds

module _ {I O W : Type 0} where
  unfoldable pub empty : Queue I O W
  empty = record { waiting = []; done = []; woken = [] }

  -- The first poll of a future: it goes to the end.
  unfoldable pub start : Ptr → I → W → Queue I O W → Queue I O W
  start p i w q = record q {
    waiting = q.waiting ++ (record { ptr = p; input = i; waker = w } ∷ []);
  }

  unfoldable pub wake_front : List (Entry I W) → O → Queue I O W → Result I O × Queue I O W
  wake_front [] o q = (err o, q)
  wake_front (e ∷ es) o q =
      (ok e.input, record { waiting = es; done = (e.ptr, o) ∷ q.done; woken = e.waker ∷ q.woken })

  -- The oldest future that waits is handed the output, and its task is woken.
  unfoldable pub wake_one : O → Queue I O W → Result I O × Queue I O W
  unfolding wake_front
  wake_one o q = wake_front q.waiting o q

  unfoldable pub take_done : Ptr → Option O → Queue I O W → Option (Poll O × Queue I O W)
  take_done p none q = none
  take_done p (some o) q = some (ready o, record q { done = remove_done p q.done })

  -- A later poll; `none` where there is no such future.
  unfoldable pub poll : (W → W → Bool) → Ptr → W → Queue I O W → Option (Poll O × Queue I O W)
  unfolding repoll update take_done
  poll will_wake p cx q =
      if has p q.waiting
      then some (pending, record q { waiting = update (repoll will_wake cx) p q.waiting })
      else take_done p (find_done p q.done) q

  unfoldable pub drop_done : Ptr → Option O → Queue I O W → Option (State I O × Queue I O W)
  drop_done p none q = none
  drop_done p (some o) q = some (output o, record q { done = remove_done p q.done })

  unfoldable pub drop_waiting : Ptr → Option I → Queue I O W → Option (State I O × Queue I O W)
  unfolding drop_done
  drop_waiting p none q = drop_done p (find_done p q.done) q
  drop_waiting p (some i) q = some (input i, record q { waiting = remove p q.waiting })

  -- The drop of a future: what it owned, its input or the output that it was handed.
  unfoldable pub drop : Ptr → Queue I O W → Option (State I O × Queue I O W)
  unfolding drop_waiting
  drop p q = drop_waiting p (find_input p q.waiting) q

-- An entry that is there, with what stands before and behind it.
pub record Split {I W : Type 0} (p : Ptr) (es : List (Entry I W)) : Type 0 where
  pub before : List (Entry I W)
  pub entry : Entry I W
  pub behind : List (Entry I W)
  pub whole : es ≡ before ++ (entry ∷ behind)
  pub here : p ≡ entry.ptr
  pub removed : remove p es ≡ before ++ behind
  pub updated : (f : Entry I W → Entry I W) → update f p es ≡ before ++ (f entry ∷ behind)
  pub found : find_input p es ≡ some entry.input

module _ {I W : Type 0} where
  Split-here :
      (p : Ptr) (e : Entry I W) (es : List (Entry I W)) → (p == e.ptr) ≡ true → Split p (e ∷ es)
  unfolding remove update find_input
  Split-here p e es h = record {
    before = [];
    entry = e;
    behind = es;
    whole = refl;
    here = ground arith;
    removed = rw h;
    updated = λ f. rw h;
    found = rw h;
  }

  Split-there :
      (p : Ptr) (e : Entry I W) (es : List (Entry I W))
      → (p == e.ptr) ≡ false
      → Split p es
      → Split p (e ∷ es)
  unfolding remove update find_input
  Split-there p e es h s = record {
    before = e ∷ s.before;
    entry = s.entry;
    behind = s.behind;
    whole = ap (◌∷◌ e) s.whole;
    here = s.here;
    removed = rw h (ap (◌∷◌ e) s.removed);
    updated = λ f. rw h (ap (◌∷◌ e) (s.updated f));
    found = rw h s.found;
  }

  pub split : (p : Ptr) (es : List (Entry I W)) → has p es ≡ true → Split p es
  split p [] h = cc
  split p (e ∷ es) h = elim (Bool-cases (p == e.ptr)) [
    | inl here ↦ Split-here p e es here
    | inr other ↦ Split-there p e es other (split p es (ground arith))
  ]

  pub find_input-absent :
      (p : Ptr) (es : List (Entry I W)) → has p es ≡ false → find_input p es ≡ none
  unfolding find_input
  find_input-absent p [] h = refl
  find_input-absent p (e ∷ es) h = ground (arith, find_input-absent p es)
