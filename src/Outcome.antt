-- ===== src/Outcome.antt =====
-- What a call can end in: a value, or a Python exception.
use telezon_s.Prelude.{ℕ, ◌≡◌, refl, ◌⊎◌, inl, inr}

pub data Error : Type 0 where
  throttle unavailable object_gone os_error value_error integrity_error no_result not_supported
        sse_error other :
      Error
  -- `HTTPException`, with its status
  http : ℕ → Error

pub data Result {ℓ} (A : Type ℓ) : Type ℓ where
  ok : A → Result A
  err : Error → Result A

infixl 10 ◌>>=◌
abbrev pub ◌>>=◌ {ℓ κ} : {A : Type ℓ} {B : Type κ} → Result A → (A → Result B) → Result B
ok a >>= f = f a
err e >>= f = err e

pub Result-cases {ℓ} :
    {A : Type ℓ} (r : Result A) → ((a : A) × (r ≡ ok a)) ⊎ ((e : Error) × (r ≡ err e))
Result-cases (ok a) = inl (a, refl)
Result-cases (err e) = inr (e, refl)
