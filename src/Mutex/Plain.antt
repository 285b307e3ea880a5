-- ===== src/Mutex/Plain.antt =====
-- mutex of src/_cmsis_rtos/_mutex.cpp makes the kernel's recursive mutex a plain one.
use weos.Common.{
  ℕ, ◌≡◌, ◌≢◌, ◌⊎◌, inl, inr, Bool, true, false, arith, Result, ok, throws, cmsis, system,
  resource_deadlock_would_occur, ℕ_discrete, sym, ◌∙◌,
}
use weos.Cmsis.{os_ok, os_wait_forever}
use weos.Mutex.Kernel.{OsMutex, free, held}
use weos.Mutex.{Mutex, lock, try_lock, unlock}

module _ (os : OsMutex) where
  open os use {Kernel, acquire, release, hold}

  abbrev pub Idle : Mutex os → Type 0
  Idle m = (hold m.kernel ≡ free) × (m.locked ≡ false)

  abbrev pub Owned : ℕ → Mutex os → Type 0
  Owned t m = (hold m.kernel ≡ held t 1) × (m.locked ≡ true)

  -- Nobody holds the mutex, or one thread does, once; `m_locked` tells which.
  abbrev pub IsPlain : Mutex os → Type 0
  IsPlain m = Idle m ⊎ ((u : ℕ) × Owned u m)

  -- An idle mutex is locked.
  pub lock-Idle :
      (m : Mutex os) (t : ℕ) → Idle m → ((lock os m t).0 ≡ ok tt) × Owned t (lock os m t).1
  unfolding lock
  lock-Idle m t h = ground (
    arith,
    os.acquire_free m.kernel t os_wait_forever h.0,
    os.acquire_ok m.kernel t os_wait_forever (os.acquire_free m.kernel t os_wait_forever h.0),
  )

  -- The owner's second lock throws, and leaves the mutex owned once.
  pub lock-Owned :
      (m : Mutex os) (t : ℕ)
      → Owned t m
      → ((lock os m t).0 ≡ throws (system resource_deadlock_would_occur)) × Owned t (lock os m t).1
  unfolding lock
  lock-Owned m t h =
      let won = os.acquire_own m.kernel t os_wait_forever 1 h.0 in
      ground (
        arith,
        won,
        os.acquire_ok m.kernel t os_wait_forever won,
        os.release_own (acquire m.kernel t os_wait_forever).1 t 0,
      )

  -- What mutex::lock by thread `t` may do.
  pub data LockStep (t : ℕ) (m : Mutex os) (r : Result (Unit {0})) (m' : Mutex os) : Type 0 where
    locks : Idle m → r ≡ ok tt → Owned t m' → LockStep t m r m'
    deadlocks :
        Owned t m
        → r ≡ throws (system resource_deadlock_would_occur)
        → Owned t m'
        → LockStep t m r m'
    fails :
        (u : ℕ)
        → Owned u m
        → u ≢ t
        → (acquire m.kernel t os_wait_forever).0 ≢ os_ok
        → r ≡ throws (cmsis (acquire m.kernel t os_wait_forever).0)
        → hold m'.kernel ≡ hold m.kernel
        → m'.locked ≡ m.locked
        → LockStep t m r m'

  refused : (m : Mutex os) (t u ms : ℕ) → Owned u m → u ≢ t → (acquire m.kernel t ms).0 ≢ os_ok
  refused m t u ms h d e = ground (arith, os.acquire_ok m.kernel t ms e)

  lock-refused :
      (m : Mutex os) (t u : ℕ) → Owned u m → u ≢ t → LockStep t m (lock os m t).0 (lock os m t).1
  unfolding lock
  lock-refused m t u owned d =
      let miss = refused m t u os_wait_forever owned d in
      LockStep.fails u owned d miss (ground (arith, miss))
        (ground (arith, miss, os.acquire_fails m.kernel t os_wait_forever)) (ground (arith, miss))

  -- A call of lock takes an idle mutex, finds the caller's own mutex locked and says so, or, on the mutex
  -- of another thread, throws the status with which the kernel has refused, and changes nothing.
  pub lock-LockStep :
      (m : Mutex os) (t : ℕ) → IsPlain m → LockStep t m (lock os m t).0 (lock os m t).1
  lock-LockStep m t (inl idle) = let h = lock-Idle m t idle in LockStep.locks idle h.0 h.1
  lock-LockStep m t (inr (u, owned)) = elim (ℕ_discrete u t) [
    | yes e ↦
        let own : Owned t m = rw (← e) owned in
        let h = lock-Owned m t own in LockStep.deadlocks own h.0 h.1
    | no d ↦ lock-refused m t u owned d
  ]

  pub data TryStep (t : ℕ) (m : Mutex os) (r : Result Bool) (m' : Mutex os) : Type 0 where
    locks : Idle m → r ≡ ok true → Owned t m' → TryStep t m r m'
    refuses :
        (u : ℕ)
        → Owned u m
        → r ≡ ok false
        → hold m'.kernel ≡ hold m.kernel
        → m'.locked ≡ m.locked
        → TryStep t m r m'

  try_lock-Idle :
      (m : Mutex os) (t : ℕ)
      → Idle m
      → ((try_lock os m t).0 ≡ ok true) × Owned t (try_lock os m t).1
  unfolding try_lock
  try_lock-Idle m t h = ground (
    arith,
    os.acquire_free m.kernel t 0 h.0,
    os.acquire_ok m.kernel t 0 (os.acquire_free m.kernel t 0 h.0),
  )

  try_lock-Owned :
      (m : Mutex os) (t : ℕ)
      → Owned t m
      → ((try_lock os m t).0 ≡ ok false) × Owned t (try_lock os m t).1
  unfolding try_lock
  try_lock-Owned m t h =
      let won = os.acquire_own m.kernel t 0 1 h.0 in
      ground
        (arith, won, os.acquire_ok m.kernel t 0 won, os.release_own (acquire m.kernel t 0).1 t 0)

  try_lock-refused :
      (m : Mutex os) (t : ℕ)
      → (acquire m.kernel t 0).0 ≢ os_ok
      → ((try_lock os m t).0 ≡ ok false)
        × (hold (try_lock os m t).1.kernel ≡ hold m.kernel)
        × ((try_lock os m t).1.locked ≡ m.locked)
  unfolding try_lock
  try_lock-refused m t miss = ground (arith, os.acquire_fails m.kernel t 0)

  -- A call of try_lock takes an idle mutex; otherwise, also if the caller itself holds the mutex, it
  -- returns false and changes nothing.
  pub try_lock-TryStep :
      (m : Mutex os) (t : ℕ) → IsPlain m → TryStep t m (try_lock os m t).0 (try_lock os m t).1
  try_lock-TryStep m t (inl idle) = let h = try_lock-Idle m t idle in TryStep.locks idle h.0 h.1
  try_lock-TryStep m t (inr (u, owned)) = elim (ℕ_discrete u t) [
    | yes e ↦
        let own : Owned t m = rw (← e) owned in
        let h = try_lock-Owned m t own in
        TryStep.refuses t own h.0 (h.1.0 ∙ sym own.0) (h.1.1 ∙ sym own.1)
    | no d ↦
        let h = try_lock-refused m t (refused m t u 0 owned d) in
        TryStep.refuses u owned h.0 h.1 h.2
  ]

  -- The owner's unlock succeeds, and leaves the mutex idle.
  pub unlock-Owned :
      (m : Mutex os) (t : ℕ) → Owned t m → ((unlock os m t).0 ≡ ok tt) × Idle (unlock os m t).1
  unfolding unlock
  unlock-Owned m t h = ground (arith, os.release_last m.kernel t h.0)

  -- lock and try_lock keep the mutex plain, whoever calls them, and so does its owner's unlock.
  pub steps-IsPlain :
      (m : Mutex os) (t : ℕ)
      → IsPlain m
      → IsPlain (lock os m t).1
        × IsPlain (try_lock os m t).1
        × (Owned t m → IsPlain (unlock os m t).1)
  steps-IsPlain m t h = (
    after_lock (lock-LockStep m t h),
    after_try (try_lock-TryStep m t h),
    λ o. inl (let k = unlock-Owned m t o in k.1),
  )
    where
      after_lock : {r : Result (Unit {0})} {m' : Mutex os} → LockStep t m r m' → IsPlain m'
      after_lock (LockStep.locks i e o) = inr (t, o)
      after_lock (LockStep.deadlocks i e o) = inr (t, o)
      after_lock (LockStep.fails u o d n q a b) = rw (a, b) h

      after_try : {r : Result Bool} {m' : Mutex os} → TryStep t m r m' → IsPlain m'
      after_try (TryStep.locks i e o) = inr (t, o)
      after_try (TryStep.refuses u o e a b) = rw (a, b) h
