-- ===== src/Prelude/Results.antt =====
-- A Go result `(value, error)`.
use mathlib.Core.Path.{◌≡◌, refl, ap}
use mathlib.Core.Logic.{◌⊎◌, inl, inr}

pub data Result {ℓ κ} (E : Type ℓ) (A : Type κ) : Type (ℓ ⊔ κ) where
  ok : A → Result E A
  err : E → Result E A

infixl 5 ◌>>=◌
abbrev pub ◌>>=◌ {ℓ κ μ} :
    {E : Type ℓ} {A : Type κ} {B : Type μ} → Result E A → (A → Result E B) → Result E B
ok a >>= f = f a
err e >>= f = err e

pub Result-cases {ℓ κ} :
    {E : Type ℓ} {A : Type κ} (r : Result E A) → ((a : A) × (r ≡ ok a)) ⊎ ((e : E) × (r ≡ err e))
Result-cases (ok a) = inl (a, refl)
Result-cases (err e) = inr (e, refl)

pub ok_injective {ℓ κ} :
    {E : Type ℓ} {A : Type κ} {a b : A} → ◌≡◌ {A = Result E A} (ok a) (ok b) → a ≡ b
ok_injective {a = a} p = ap (λ r. elim r [ ok x ↦ x | err e ↦ a ]) p

-- A chain that gives a result: what its first step gave.
pub bind-ok {ℓ κ μ} :
    {E : Type ℓ} {A : Type κ} {B : Type μ} (r : Result E A) (k : A → Result E B) (b : B)
    → (r >>= k) ≡ ok b
    → (a : A) × ((r ≡ ok a) × (k a ≡ ok b))
bind-ok (ok a) k b h = (a, (refl, h))
bind-ok (err e) k b h = cc

pub err_apart {ℓ κ} :
    {E : Type ℓ} {A : Type κ} (e : E) (a : A) → ◌≡◌ {A = Result E A} (err e) (ok a) → ⊥
err_apart e a h = cc
