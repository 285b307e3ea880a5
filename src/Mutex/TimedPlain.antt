-- ===== src/Mutex/TimedPlain.antt =====
-- timed_mutex::try_lock_for of src/_cmsis_rtos/_mutex.cpp, which leaves `m_locked` alone.
use weos.Common.{ℕ, ◌≡◌, refl, true, false, arith, some, ok, throws, assertion, ℤ}
use weos.Cmsis.{os_ok}
use weos.Mutex.Kernel.{OsMutex, held}
use weos.Mutex.{Mutex, try_lock_for, unlock, judge_acquire}
use weos.Mutex.Plain.{Idle}
use weos.Waiting.{slices, clamp_zero, truncated, done}

module _ (os : OsMutex) where
  open os use {Kernel, acquire, release, hold}

  judge-ok : (v : ℕ) → v ≡ os_ok → judge_acquire v ≡ done true
  unfolding judge_acquire
  judge-ok v e = ground arith

  -- try_lock_for on an idle mutex returns true and takes the kernel's mutex, but does not set
  -- `m_locked`: the caller's unlock then fails its assertion, and the mutex is never given back.
  pub try_lock_for-unmarked :
      (m : Mutex os) (t : ℕ) (ms : ℤ)
      → Idle os m
      → (m' : Mutex os) × (try_lock_for os m t ms ≡ some (ok true, m'))
        × (hold m'.kernel ≡ held t 1)
        × (m'.locked ≡ false)
        × (unlock os m' t ≡ (throws assertion, m'))
  unfolding try_lock_for unlock
  try_lock_for-unmarked m t ms h =
      let timeout = truncated (clamp_zero ms) in
      let won = os.acquire_free m.kernel t timeout h.0 in
      (
        record m { kernel = (acquire m.kernel t timeout).1 },
        rw (try_lock_for, slices, judge-ok _ won) refl,
        ground (arith, os.acquire_ok m.kernel t timeout won),
        h.1,
        ground arith,
      )
