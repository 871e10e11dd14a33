-- ===== src/Domain/Errors.antt =====
-- app/domain/errors.py, with the exceptions of other classes that the program lets through, and
-- the result of a computation that may raise.
use report_insight.Base.{◌≡◌, refl, ◌⊎◌, inl, inr}

pub data Error : Type 0 where
  -- the subclasses of `DomainError`
  not_found permission_denied invalid_state retryable : Error
  -- Python's `ValueError` and `IndexError`
  value_error index_error : Error
  -- an `HTTPException` with status 401
  unauthenticated : Error
  -- an exception of another class, raised by a component outside the services
  external : Error

pub data Result {ℓ} (A : Type ℓ) : Type ℓ where
  ok : A → Result A
  err : Error → Result A

pub Result-cases {ℓ} :
    {A : Type ℓ} (r : Result A) → ((a : A) × (r ≡ ok a)) ⊎ ((e : Error) × (r ≡ err e))
Result-cases (ok a) = inl (a, refl)
Result-cases (err e) = inr (e, refl)
