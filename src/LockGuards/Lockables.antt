-- ===== src/LockGuards/Lockables.antt =====
-- What src/_common/_lock_guards.hpp relies on of the lockables that it is given.
use weos.Common.{ℕ, Bool, true, false, ◌≡◌, ◌==◌, if◌then◌else◌, Result, ok, throws, Error}

-- `held s m`: the calling thread holds the mutex `m` in the state `s`.
pub record Mutexes : Type 1 where
  pub S : Type 0
  pub lock : ℕ → S → Result (Unit {0}) × S
  pub try_lock : ℕ → S → Result Bool × S
  pub unlock : ℕ → S → S
  pub held : S → ℕ → Bool
  pub lock_ok :
      (m : ℕ) (s : S) (j : ℕ)
      → (lock m s).0 ≡ ok tt
      → held (lock m s).1 j ≡ (if m == j then true else held s j)
  pub lock_throws :
      (m : ℕ) (s : S) (j : ℕ) (e : Error) → (lock m s).0 ≡ throws e → held (lock m s).1 j ≡ held s j
  pub try_true :
      (m : ℕ) (s : S) (j : ℕ)
      → (try_lock m s).0 ≡ ok true
      → held (try_lock m s).1 j ≡ (if m == j then true else held s j)
  pub try_false :
      (m : ℕ) (s : S) (j : ℕ) → (try_lock m s).0 ≡ ok false → held (try_lock m s).1 j ≡ held s j
  pub try_throws :
      (m : ℕ) (s : S) (j : ℕ) (e : Error)
      → (try_lock m s).0 ≡ throws e
      → held (try_lock m s).1 j ≡ held s j
  pub unlock_held :
      (m : ℕ) (s : S) (j : ℕ)
      → held s m ≡ true
      → held (unlock m s) j ≡ (if m == j then false else held s j)
