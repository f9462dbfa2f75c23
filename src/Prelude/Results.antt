-- ===== src/Prelude/Results.antt =====
-- `core::result::Result`, `core::task::Poll`, and what a call does besides: it returns, or panics.
pub data Result {ℓ κ} (A : Type ℓ) (E : Type κ) : Type (ℓ ⊔ κ) where
  ok : A → Result A E
  err : E → Result A E

pub data Poll {ℓ} (A : Type ℓ) : Type ℓ where
  ready : A → Poll A
  pending : Poll A
