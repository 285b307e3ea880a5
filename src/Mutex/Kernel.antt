-- ===== src/Mutex/Kernel.antt =====
-- What src/_cmsis_rtos/_mutex.cpp uses of the CMSIS-RTOS kernel: osMutexWait and osMutexRelease on
-- one mutex, which is recursive.
use weos.Common.{ℕ, suc, ◌≡◌, ◌≢◌, ◌⊎◌}
use weos.Cmsis.{os_ok}

pub data Hold : Type 0 where
  free : Hold
  held : (owner depth : ℕ) → Hold

-- Thread `t` has taken the mutex once more.
abbrev pub Taken : ℕ → Hold → Hold → Type 0
Taken t h h' = ((h ≡ free) × (h' ≡ held t 1)) ⊎ ((n : ℕ) × (h ≡ held t n) × (h' ≡ held t (suc n)))

pub record OsMutex : Type 1 where
  pub Kernel : Type 0
  pub acquire : Kernel → ℕ → ℕ → ℕ × Kernel
  pub release : Kernel → ℕ → ℕ × Kernel
  pub hold : Kernel → Hold
  -- A call that succeeds takes the mutex; it does if the mutex is free or the caller's own.
  pub acquire_ok :
      (k : Kernel) (t ms : ℕ)
      → (acquire k t ms).0 ≡ os_ok
      → Taken t (hold k) (hold (acquire k t ms).1)
  pub acquire_fails :
      (k : Kernel) (t ms : ℕ) → (acquire k t ms).0 ≢ os_ok → hold (acquire k t ms).1 ≡ hold k
  pub acquire_free : (k : Kernel) (t ms : ℕ) → hold k ≡ free → (acquire k t ms).0 ≡ os_ok
  pub acquire_own : (k : Kernel) (t ms n : ℕ) → hold k ≡ held t n → (acquire k t ms).0 ≡ os_ok
  -- The owner's release undoes one call.
  pub release_last :
      (k : Kernel) (t : ℕ)
      → hold k ≡ held t 1
      → ((release k t).0 ≡ os_ok) × (hold (release k t).1 ≡ free)
  pub release_own :
      (k : Kernel) (t n : ℕ)
      → hold k ≡ held t (suc (suc n))
      → ((release k t).0 ≡ os_ok) × (hold (release k t).1 ≡ held t (suc n))
