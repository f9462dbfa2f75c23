-- ===== src/Semaphore/System.antt =====
-- A semaphore with all that its callers hold: futures that wait or are woken, and permits. A step is
-- one call, made by anybody at any time; a run is any sequence of steps from `Semaphore::new`.
pub mod Accounts
pub mod Steps
use unsync.Prelude.{
  ℕ, ◌+◌, ◌<◌, ◌≡◌, ◌≢◌, Bool, true, false, some, none, Option, List, [], ◌∷◌, ◌++◌, Poll, ready,
  pending, ◌==◌,
}
use unsync.WaitList.{Ptr}
use unsync.WaitList.Links.{Entry, has}
use unsync.WaitList.Spec.{find_done}
use unsync.Semaphore.{
  Fairness, Semaphore, new, add_permits_with, try_acquire, try_acquire_unfair, contend,
  acquire_poll, acquire_drop, drop_permit, release_fair, leak,
}
use unsync.Semaphore.Waiters.{wanting, IsFront}

-- Futures are known by the address of their waiter, and `wants` is what each was asked to acquire.
pub record System (W : Type 0) : Type 0 where
  pub sem : Semaphore W
  pub wants : Ptr → ℕ
  pub held : List ℕ

-- What a poll hands out is held.
abbrev pub receive : Poll ℕ → List ℕ → List ℕ
receive pending held = held
receive (ready n) held = n ∷ held

module _ {W : Type 0} where
  -- How `acquire` and `acquire_unfair` try first.
  abbrev pub try_of : Bool → ℕ → Semaphore W → Option (Semaphore W)
  try_of true = try_acquire_unfair
  try_of false = try_acquire

  abbrev pub initial : ℕ → System W
  initial n = record { sem = new n; wants = λ p. 0; held = [] }

  pub data Step (will_wake : W → W → Bool) (s t : System W) : Type 0 where
    adds :
        (fairness : Fairness) (n : ℕ) (sem : Semaphore W)
        → add_permits_with fairness n s.sem ≡ some sem
        → t ≡ record s { sem = sem }
        → Step will_wake s t
    tries :
        (steal : Bool) (n : ℕ) (sem : Semaphore W)
        → try_of steal n s.sem ≡ some sem
        → t ≡ record s { sem = sem; held = n ∷ s.held }
        → Step will_wake s t
    starts :
        (steal : Bool) (p : Ptr) (n : ℕ) (cx : W)
        → has p s.sem.waiters.waiting ≡ false
        → find_done p s.sem.waiters.done ≡ none
        → t ≡ record {
          sem = (contend (try_of steal) p n cx s.sem).1;
          wants = wanting s.wants p n;
          held = receive (contend (try_of steal) p n cx s.sem).0 s.held;
        }
        → Step will_wake s t
    polls :
        (steal : Bool) (p : Ptr) (cx : W) (r : Poll ℕ) (sem : Semaphore W)
        → acquire_poll will_wake (try_of steal) p (s.wants p) cx s.sem ≡ some (r, sem)
        → t ≡ record s { sem = sem; held = receive r s.held }
        → Step will_wake s t
    drops :
        (p : Ptr) (sem : Semaphore W)
        → acquire_drop p s.sem ≡ some sem
        → t ≡ record s { sem = sem }
        → Step will_wake s t
    gives_back :
        (n : ℕ) (xs ys : List ℕ) (sem : Semaphore W)
        → s.held ≡ xs ++ (n ∷ ys)
        → drop_permit n s.sem ≡ some sem
        → t ≡ record s { sem = sem; held = xs ++ ys }
        → Step will_wake s t
    gives_back_fairly :
        (n : ℕ) (xs ys : List ℕ) (sem : Semaphore W)
        → s.held ≡ xs ++ (n ∷ ys)
        → release_fair n s.sem ≡ some sem
        → t ≡ record s { sem = sem; held = xs ++ ys }
        → Step will_wake s t
    leaks :
        (n : ℕ) (xs ys : List ℕ)
        → s.held ≡ xs ++ (n ∷ ys)
        → t ≡ record s { sem = leak n s.sem; held = xs ++ ys }
        → Step will_wake s t

  -- The step does not drop the future that waits at the front of the queue.
  abbrev pub SparesFront : {will_wake : W → W → Bool} (s t : System W) → Step will_wake s t → Type 0
  SparesFront s t (drops p sem h e) = ¬ IsFront p s.sem.waiters.waiting
  SparesFront s t (adds fairness n sem h e) = Unit {0}
  SparesFront s t (tries steal n sem h e) = Unit {0}
  SparesFront s t (starts steal p n cx out new e) = Unit {0}
  SparesFront s t (polls steal p cx r sem h e) = Unit {0}
  SparesFront s t (gives_back n xs ys sem h k e) = Unit {0}
  SparesFront s t (gives_back_fairly n xs ys sem h k e) = Unit {0}
  SparesFront s t (leaks n xs ys h e) = Unit {0}

  -- What can come about from a new semaphore of `n` permits.
  pub data Reach (will_wake : W → W → Bool) (n : ℕ) : System W → Type 0 where
    begins : Reach will_wake n (initial n)
    goes : {s t : System W} → Reach will_wake n s → Step will_wake s t → Reach will_wake n t

  -- The same, with no step that drops the future at the front of the queue.
  pub data CalmReach (will_wake : W → W → Bool) (n : ℕ) : System W → Type 0 where
    begins : CalmReach will_wake n (initial n)
    goes :
        {s t : System W}
        → CalmReach will_wake n s
        → (step : Step will_wake s t) → SparesFront s t step
        → CalmReach will_wake n t
