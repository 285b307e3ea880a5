-- ===== src/LockGuards.antt =====
-- src/_common/_lock_guards.hpp: unique_lock, lock_guard and the functions that lock two lockables. The
-- lockables are a parameter: mutexes by their addresses over a state, as one thread sees them.
pub mod Lockables
pub mod Ownership
pub mod Two
pub mod Tests
use weos.Common.{
  ℕ, zero, suc, Bool, true, false, not, Option, none, some, if◌then◌else◌, ℤ, pos, negsuc, Result,
  ok, throws, system, operation_not_permitted, resource_deadlock_would_occur,
}
use Lockables.{Mutexes}

-- m_mutex and m_locked
pub record UniqueLock : Type 0 where
  pub mutex : Option ℕ
  pub locked : Bool

-- unique_lock() and the lock that is moved from
abbrev pub unbound : UniqueLock
unbound = record { mutex = none; locked = false }

-- unique_lock(mutex, defer_lock)
abbrev pub deferred : ℕ → UniqueLock
deferred m = record { mutex = some m; locked = false }

-- unique_lock(mutex, adopt_lock)
abbrev pub adopted : ℕ → UniqueLock
adopted m = record { mutex = some m; locked = true }

-- release: the mutex, and the lock that has let go of it
pub release : UniqueLock → Option ℕ × UniqueLock
release u = (u.mutex, unbound)

-- swap
pub swap : UniqueLock → UniqueLock → UniqueLock × UniqueLock
swap x y = (y, x)

-- unique_lock(unique_lock&& other): the new lock and `other`
pub move_from : UniqueLock → UniqueLock × UniqueLock
move_from other = (other, unbound)

module _ (ms : Mutexes) where
  open ms use {S}

  -- A lock that is locked has a mutex; for one that has none, `m_mutex->unlock()` would be undefined.
  abbrev unlock_mutex : Option ℕ → S → S
  unlock_mutex none s = s
  unlock_mutex (some m) s = ms.unlock m s

  -- unique_lock(mutex): no lock is made if locking throws.
  pub locking : ℕ → S → Result UniqueLock × S
  locking m s =
      let (r, s') = ms.lock m s in
      (elim r [ ok _ ↦ ok (record { mutex = some m; locked = true }) | throws e ↦ throws e ], s')

  -- unique_lock(mutex, try_to_lock)
  pub trying : ℕ → S → Result UniqueLock × S
  trying m s =
      let (r, s') = ms.try_lock m s in
      (elim r [ ok b ↦ ok (record { mutex = some m; locked = b }) | throws e ↦ throws e ], s')

  -- ~unique_lock
  pub destroy : UniqueLock → S → S
  destroy u s = if u.locked then unlock_mutex u.mutex s else s

  -- operator=(unique_lock&&), for two locks: this one, `other`, and the state
  pub move_assign : UniqueLock → UniqueLock → S → (UniqueLock × UniqueLock) × S
  move_assign u other s = ((other, unbound), if u.locked then unlock_mutex u.mutex s else s)

  -- The guards of lock, try_lock, try_lock_for and try_lock_until.
  abbrev guarded :
      {A : Type 0}
      → UniqueLock
      → S
      → (ℕ → Result A × (UniqueLock × S))
      → Result A × (UniqueLock × S)
  guarded u s body = elim u.mutex [
    | none ↦ (throws (system operation_not_permitted), (u, s))
    | some m ↦ if u.locked then (throws (system resource_deadlock_would_occur), (u, s)) else body m
  ]

  -- unique_lock::lock
  pub lock : UniqueLock → S → Result (Unit {0}) × (UniqueLock × S)
  lock u s = guarded u s (λ m.
      let (r, s') = ms.lock m s in
      elim r [ ok _ ↦ (ok tt, (record u { locked = true }, s')) | throws e ↦ (throws e, (u, s')) ])

  -- unique_lock::try_lock
  pub try_lock : UniqueLock → S → Result Bool × (UniqueLock × S)
  try_lock u s = guarded u s (λ m.
      let (r, s') = ms.try_lock m s in
      elim r [ ok b ↦ (ok b, (record u { locked = b }, s')) | throws e ↦ (throws e, (u, s')) ])

  -- unique_lock::unlock
  pub unlock : UniqueLock → S → Result (Unit {0}) × (UniqueLock × S)
  unlock u s =
      if u.locked
      then (ok tt, (record u { locked = false }, unlock_mutex u.mutex s))
      else (throws (system operation_not_permitted), (u, s))

  -- try_lock(lockable1, lockable2): -1, or the number of the one that could not be locked. The
  -- unique_lock of the source unlocks the first on every other way out.
  pub try_lock_two : ℕ → ℕ → S → Result ℤ × S
  try_lock_two a b s =
      let (ra, sa) = ms.try_lock a s in
      let (rb, sb) = ms.try_lock b sa in
      elim ra [
        | throws e ↦ (throws e, sa)
        | ok false ↦ (ok (pos 0), sa)
        | ok true ↦ elim rb [
          | throws e ↦ (throws e, ms.unlock a sb)
          | ok true ↦ (ok (negsuc 0), sb)
          | ok false ↦ (ok (pos 1), ms.unlock a sb)
        ]
      ]

  -- One half of the loop of lock(lockable1, lockable2): lock the first, try the second.
  pub attempt : ℕ → ℕ → S → Result Bool × S
  attempt a b s =
      let (ra, sa) = ms.lock a s in
      let (rb, sb) = ms.try_lock b sa in
      elim ra [
        | throws e ↦ (throws e, sa)
        | ok _ ↦ elim rb [
          | throws e ↦ (throws e, ms.unlock a sb)
          | ok true ↦ (ok true, sb)
          | ok false ↦ (ok false, ms.unlock a sb)
        ]
      ]

  -- lock(lockable1, lockable2), on fuel; `none` means that the fuel ran out.
  pub lock_two : ℕ → ℕ → ℕ → S → Option (Result (Unit {0}) × S)
  unfolding attempt
  lock_two zero a b s = none
  lock_two (suc fuel) a b s =
      let (r, s') = attempt a b s in
      let (r', s'') = attempt b a s' in
      let rest = lock_two fuel a b s'' in
      elim r [
        | throws e ↦ some (throws e, s')
        | ok true ↦ some (ok tt, s')
        | ok false ↦ elim r' [
          | throws e ↦ some (throws e, s'')
          | ok true ↦ some (ok tt, s'')
          | ok false ↦ rest
        ]
      ]
