-- ===== src/BroadRc/Tests.antt =====
-- The theorems on a `BroadRc` at concrete references.
use unsync.Prelude.{ℕ, ◌≡◌, refl, true, none, [], ◌∷◌, List, returns, arith}
use unsync.BroadRc.{new}
use unsync.BroadRc.Handles.{
  Call, subscribes, drops_sender, drops_receiver, Handles, calls, shared_by, calls-shared_by,
}

abbrev five : ℕ
five = 5

-- Two receivers come, and all references go, the sender first.
abbrev history : List Call
history = subscribes ∷ subscribes ∷ drops_receiver ∷ drops_sender ∷ drops_receiver ∷ []

abbrev only_sender : Handles
only_sender = record { sender = true; receivers = 0 }

new-shared_by : new five ≡ shared_by five only_sender
unfolding new
new-shared_by = refl

calls-shared_by_example : calls history (shared_by five only_sender) ≡ returns tt none
calls-shared_by_example = calls-shared_by five only_sender history (omega arith) refl
