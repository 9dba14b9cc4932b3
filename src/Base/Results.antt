-- ===== src/Base/Results.antt =====
-- `std::result::Result`.
use mathlib.Core.Path.{◌≡◌, refl}
use mathlib.Core.Logic.{◌⊎◌, inl, inr}
use native.Mathlib.Omega.{arith}

pub data Outcome {ℓ κ} (A : Type ℓ) (E : Type κ) : Type (ℓ ⊔ κ) where
  ok : A → Outcome A E
  err : E → Outcome A E

-- A result is a success or a failure.
pub Outcome-cases {ℓ κ} :
    {A : Type ℓ} {E : Type κ} (m : Outcome A E) → ((e : E) × (m ≡ err e)) ⊎ ((a : A) × (m ≡ ok a))
Outcome-cases (err e) = inl (e, refl)
Outcome-cases (ok a) = inr (a, refl)

-- The `?` operator: the rest of a computation behind a success.
unfoldable pub and_then {ℓ κ μ} :
    {A : Type ℓ} {B : Type κ} {E : Type μ} → Outcome A E → (A → Outcome B E) → Outcome B E
and_then (err e) f = err e
and_then (ok a) f = f a

pub and_then-ok {ℓ κ μ} :
    {A : Type ℓ} {B : Type κ} {E : Type μ} (m : Outcome A E) (f : A → Outcome B E) (b : B)
    → and_then m f ≡ ok b
    → (a : A) × (m ≡ ok a) × (f a ≡ ok b)
unfolding and_then
and_then-ok (err e) f b h = absurd (ground arith)
and_then-ok (ok a) f b h = (a, refl, h)
