-- ===== src/Mutex/Nested.antt =====
-- recursive_mutex and recursive_timed_mutex of src/_cmsis_rtos/_mutex.cpp.
use weos.Common.{ℕ, zero, suc, ◌≡◌, arith, ok}
use weos.Cmsis.{os_wait_forever}
use weos.Mutex.Kernel.{OsMutex, free, held}
use weos.Mutex.{recursive_lock, recursive_unlock}

module _ (os : OsMutex) where
  open os use {Kernel, acquire, release, hold}

  -- Thread `t` holds the mutex `n` times.
  abbrev pub Holds : ℕ → ℕ → Kernel → Type 0
  Holds t zero k = hold k ≡ free
  Holds t (suc n) k = hold k ≡ held t (suc n)

  -- recursive_mutex::lock, `n` times over.
  pub lock_times : ℕ → Kernel → ℕ → Kernel
  unfolding recursive_lock
  lock_times zero k t = k
  lock_times (suc n) k t = (recursive_lock os (lock_times n k t) t).1

  -- recursive_mutex::unlock, `n` times over.
  pub unlock_times : ℕ → Kernel → ℕ → Kernel
  unfolding recursive_unlock
  unlock_times zero k t = k
  unlock_times (suc n) k t = unlock_times n (recursive_unlock os k t).1 t

  recursive_lock-Holds :
      (k : Kernel) (t n : ℕ)
      → Holds t n k
      → ((recursive_lock os k t).0 ≡ ok tt) × Holds t (suc n) (recursive_lock os k t).1
  unfolding recursive_lock
  recursive_lock-Holds k t zero h = ground (
    arith,
    os.acquire_free k t os_wait_forever h,
    os.acquire_ok k t os_wait_forever (os.acquire_free k t os_wait_forever h),
  )
  recursive_lock-Holds k t (suc n) h = ground (
    arith,
    os.acquire_own k t os_wait_forever (suc n) h,
    os.acquire_ok k t os_wait_forever (os.acquire_own k t os_wait_forever (suc n) h),
  )

  recursive_unlock-Holds :
      (k : Kernel) (t n : ℕ)
      → Holds t (suc n) k
      → ((recursive_unlock os k t).0 ≡ ok tt) × Holds t n (recursive_unlock os k t).1
  unfolding recursive_unlock
  recursive_unlock-Holds k t zero h = ground (arith, os.release_last k t h)
  recursive_unlock-Holds k t (suc n) h = ground (arith, os.release_own k t n h)

  pub lock_times-Holds : (n : ℕ) (k : Kernel) (t : ℕ) → hold k ≡ free → Holds t n (lock_times n k t)
  unfolding lock_times
  lock_times-Holds zero k t h = h
  lock_times-Holds (suc n) k t h =
      (recursive_lock-Holds (lock_times n k t) t n (lock_times-Holds n k t h)).1

  unlock_times-Holds : (n : ℕ) (k : Kernel) (t : ℕ) → Holds t n k → hold (unlock_times n k t) ≡ free
  unfolding unlock_times
  unlock_times-Holds zero k t h = h
  unlock_times-Holds (suc n) k t h =
      unlock_times-Holds n (recursive_unlock os k t).1 t (recursive_unlock-Holds k t n h).1

  -- A free recursive mutex that a thread locks `n` times is its own, `n` deep, and free again after as
  -- many calls of unlock.
  pub unlock_times-lock_times :
      (n : ℕ) (k : Kernel) (t : ℕ)
      → hold k ≡ free
      → Holds t n (lock_times n k t) × (hold (unlock_times n (lock_times n k t) t) ≡ free)
  unlock_times-lock_times n k t h =
      let held = lock_times-Holds n k t h in (held, unlock_times-Holds n (lock_times n k t) t held)
