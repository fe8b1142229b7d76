-- ===== src/Common/Returns.antt =====
-- Total correctness of a computation that may fault: it has a result, and the result is right.
use mathlib.Core.Path.{◌≡◌}
use mathlib.Core.Option.{Option, some}

abbrev pub Returns {ℓ κ} : {A : Type ℓ} → (A → Type κ) → Option A → Type (ℓ ⊔ κ)
Returns {A = A} P o = (a : A) × (o ≡ some a) × P a
