-- ===== src/Base/Results.antt =====
-- What code that may panic returns.

pub data Checked {ℓ} (A : Type ℓ) : Type ℓ where
  done : A → Checked A
  panic : Checked A

-- The code returns, without a panic, a result of which `P` holds.
pub data Returns {ℓ κ} {A : Type ℓ} (P : A → Type κ) : Checked A → Type (ℓ ⊔ κ) where
  returns : {a : A} → P a → Returns P (done a)

pub Returns-map {ℓ} :
    {A : Type ℓ} {P Q : A → Type 0} {m : Checked A}
    → ((a : A) → P a → Q a)
    → Returns P m
    → Returns Q m
Returns-map h (returns {a} p) = returns (h a p)
