-- ===== src/Mutex.antt =====
-- src/_cmsis_rtos/_mutex.hpp and _mutex.cpp. The kernel's recursive mutex is a parameter with its
-- documented behaviour. A call that may block is modelled in the state in which it returns.
pub mod Kernel
pub mod Plain
pub mod TimedPlain
pub mod Nested
pub mod Tests
use weos.Common.{
  ℕ, suc, Bool, true, false, not, ◌||◌, ◌==◌, if◌then◌else◌, Option, none, some, ℤ, Result, ok,
  throws, cmsis, system, assertion, resource_deadlock_would_occur,
}
use weos.Cmsis.{os_ok, os_error_resource, os_error_timeout_resource, os_error_os, os_wait_forever}
use weos.Waiting.{Verdict, done, again, fail, clamp_zero, slices}
use Kernel.{OsMutex}

-- After osMutexWait in the two try_lock_for functions.
pub judge_acquire : ℕ → Verdict Bool
judge_acquire result =
    if result == os_ok
    then done true
    else if result == os_error_resource || result == os_error_timeout_resource
    then again
    else fail (cmsis os_error_os)

module _ (os : OsMutex) where
  open os use {Kernel, acquire, release}

  -- std::mutex: the kernel's control block and `m_locked`.
  pub record Mutex : Type 0 where
    pub kernel : Kernel
    pub locked : Bool

  -- mutex::lock by thread `t`.
  pub lock : Mutex → ℕ → Result (Unit {0}) × Mutex
  lock m t =
      let (result, k) = acquire m.kernel t os_wait_forever in
      let (undone, k') = release k t in
      if not (result == os_ok)
      then (throws (cmsis result), record m { kernel = k })
      else if not m.locked
      then (ok tt, record { kernel = k; locked = true })
      else if not (undone == os_ok)
      then (throws (cmsis undone), record m { kernel = k' })
      else (throws (system resource_deadlock_would_occur), record m { kernel = k' })

  -- mutex::try_lock
  pub try_lock : Mutex → ℕ → Result Bool × Mutex
  try_lock m t =
      let (result, k) = acquire m.kernel t 0 in
      let (undone, k') = release k t in
      if result == os_error_resource
      then (ok false, record m { kernel = k })
      else if not (result == os_ok)
      then (ok false, record m { kernel = k })
      else if not m.locked
      then (ok true, record { kernel = k; locked = true })
      else (if undone == os_ok then ok false else throws assertion, record m { kernel = k' })

  -- mutex::unlock
  pub unlock : Mutex → ℕ → Result (Unit {0}) × Mutex
  unlock m t =
      let (result, k) = release m.kernel t in
      if not m.locked then (throws assertion, m) else (
        if result == os_ok then ok tt else throws assertion,
        record { kernel = k; locked = false },
      )

  -- timed_mutex::try_lock_for, for milliseconds
  pub try_lock_for : Mutex → ℕ → ℤ → Option (Result Bool × Mutex)
  unfolding judge_acquire slices clamp_zero
  try_lock_for m t ms =
      elim (slices (λ k timeout. acquire k t timeout) judge_acquire false (suc (clamp_zero ms))
        m.kernel (clamp_zero ms)) [ none ↦ none | some (r, k) ↦ some (r, record m { kernel = k }) ]

  -- recursive_mutex, which is the kernel's control block alone
  pub recursive_lock : Kernel → ℕ → Result (Unit {0}) × Kernel
  recursive_lock k t =
      let (result, k') = acquire k t os_wait_forever in
      (if result == os_ok then ok tt else throws (cmsis result), k')

  pub recursive_try_lock : Kernel → ℕ → Bool × Kernel
  recursive_try_lock k t = let (result, k') = acquire k t 0 in (result == os_ok, k')

  pub recursive_unlock : Kernel → ℕ → Result (Unit {0}) × Kernel
  recursive_unlock k t =
      let (result, k') = release k t in (if result == os_ok then ok tt else throws assertion, k')

  -- recursive_timed_mutex::try_lock_for, for milliseconds
  pub recursive_try_lock_for : Kernel → ℕ → ℤ → Option (Result Bool × Kernel)
  unfolding judge_acquire slices clamp_zero
  recursive_try_lock_for k t ms =
      slices (λ k timeout. acquire k t timeout) judge_acquire false (suc (clamp_zero ms)) k
        (clamp_zero ms)
