-- ===== src/Prelude/Result.antt =====
-- apps/api/app/core/errors.py: a service method that may raise a `ProblemError` returns a `Result`.
-- The texts of the errors are not kept.
use mathlib.Core.Path.{◌≡◌, refl}
use mathlib.Core.Logic.{◌⊎◌, inl, inr}

pub data Problem : Type 0 where
  not_found conflict unprocessable forbidden bad_gateway service_unavailable : Problem
  locked gateway_timeout internal : Problem

pub data Result {ℓ} (A : Type ℓ) : Type ℓ where
  ok : A → Result A
  err : Problem → Result A

infixl 5 ◌>>=◌
-- the rest of a method runs only if nothing was raised
abbrev pub ◌>>=◌ {ℓ κ} : {A : Type ℓ} {B : Type κ} → Result A → (A → Result B) → Result B
err problem >>= rest = err problem
ok value >>= rest = rest value

-- A chain that ends well: its first part did, and the rest did on what that gave.
pub bind_ok {ℓ κ} :
    {A : Type ℓ} {B : Type κ} (first : Result A) (rest : A → Result B) {out : B}
    → (first >>= rest) ≡ ok out
    → (value : A) × (first ≡ ok value) × (rest value ≡ ok out)
bind_ok (ok value) rest h = (value, refl, h)
bind_ok (err problem) rest h = cc

pub Result-cases {ℓ} :
    {A : Type ℓ} (r : Result A)
    → ((problem : Problem) × (r ≡ err problem)) ⊎ ((value : A) × (r ≡ ok value))
Result-cases (ok value) = inr (value, refl)
Result-cases (err problem) = inl (problem, refl)
