-- ===== src/Common/Results.antt =====
-- Results of fallible operations, and the errors that they throw.
use Prim.Native.Nat.{ℕ}
use mathlib.Core.Path.{◌≡◌, refl}
use mathlib.Core.Bool.{Bool, true, false}
use mathlib.Core.Logic.{◌⊎◌, inl, inr}

-- The conditions of src/_common/_system_error.hpp that the modelled code throws.
pub data Errc : Type 0 where
  not_enough_memory invalid_argument no_child_process : Errc
  operation_not_permitted resource_deadlock_would_occur : Errc

-- The conditions of src/_cmsis_rtos/_future.hpp.
pub data FutureErrc : Type 0 where
  broken_promise future_already_retrieved promise_already_satisfied no_state : FutureErrc

-- What leaves a function instead of a value. `assertion` is a failed WEOS_ASSERT.
pub data Error : Type 0 where
  cmsis : ℕ → Error
  system : Errc → Error
  future : FutureErrc → Error
  bad_alloc : Error
  assertion : Error

pub data Result {ℓ} (A : Type ℓ) : Type ℓ where
  ok : A → Result A
  throws : Error → Result A

pub Result-cases {ℓ} :
    {A : Type ℓ} (r : Result A) → ((a : A) × (r ≡ ok a)) ⊎ ((e : Error) × (r ≡ throws e))
Result-cases (ok a) = inl (a, refl)
Result-cases (throws e) = inr (e, refl)

pub Result-Bool :
    (r : Result Bool) → (r ≡ ok true) ⊎ (r ≡ ok false) ⊎ ((e : Error) × (r ≡ throws e))
Result-Bool (ok true) = inl refl
Result-Bool (ok false) = inr (inl refl)
Result-Bool (throws e) = inr (inr (e, refl))
