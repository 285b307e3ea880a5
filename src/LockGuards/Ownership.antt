-- ===== src/LockGuards/Ownership.antt =====
-- unique_lock of src/_common/_lock_guards.hpp owns what it says.
use weos.Common.{
  ◌∙◌, ◌≢◌, ==_refl, ==_iff, ℕ, Bool, true, false, ◌≡◌, refl, Option, none, some, arith, ◌==◌,
  if◌then◌else◌, ◌⊎◌, inl, inr, Result-cases, Result-Bool, Result, ok, throws, Error, system,
  operation_not_permitted, resource_deadlock_would_occur,
}
use weos.LockGuards.Lockables.{Mutexes}
use weos.LockGuards.{UniqueLock, unbound, lock, try_lock, unlock, destroy, move_assign}

module _ (ms : Mutexes) where
  open ms use {S, held}

  -- A lock that is marked as locked has a mutex, and the thread holds it.
  abbrev pub Owner : Option ℕ → Bool → S → Type 0
  Owner none true s = ⊥
  Owner (some m) true s = held s m ≡ true
  Owner none false s = Unit
  Owner (some m) false s = Unit

  abbrev pub IsOwner : UniqueLock → S → Type 0
  IsOwner u s = Owner u.mutex u.locked s

  -- The thread holds the same mutexes, but for `m`, which it holds if `b`.
  abbrev pub Sets : ℕ → Bool → S → S → Type 0
  Sets m b s s' = (j : ℕ) → held s' j ≡ (if m == j then b else held s j)

  abbrev pub Same : S → S → Type 0
  Same s s' = (j : ℕ) → held s' j ≡ held s j

  -- What lock and try_lock do; `A` is their result, and `won` and `lost` its values.
  pub data Tries {A : Type 0} (won : A → Bool) (u : UniqueLock) (s : S) (r : Result A)
      (u' : UniqueLock) (s' : S) : Type 0 where
    no_mutex :
        u.mutex ≡ none
        → r ≡ throws (system operation_not_permitted)
        → u' ≡ u
        → s' ≡ s
        → Tries won u s r u' s'
    locked_twice :
        u.locked ≡ true
        → r ≡ throws (system resource_deadlock_would_occur)
        → u' ≡ u
        → s' ≡ s
        → Tries won u s r u' s'
    locks :
        (m : ℕ) (a : A)
        → u.mutex ≡ some m
        → r ≡ ok a
        → won a ≡ true
        → u' ≡ record { mutex = some m; locked = true }
        → Sets m true s s'
        → Tries won u s r u' s'
    refuses : (a : A) → r ≡ ok a → won a ≡ false → u' ≡ u → Same s s' → Tries won u s r u' s'
    fails : (e : Error) → r ≡ throws e → u' ≡ u → Same s s' → Tries won u s r u' s'

  lock-at :
      (o : Option ℕ) (b : Bool) (s : S)
      → let u : UniqueLock = record { mutex = o; locked = b } in
        let r = lock ms u s in Tries (λ _. true) u s r.0 r.1.0 r.1.1
  unfolding lock
  lock-at none b s = Tries.no_mutex refl refl refl refl
  lock-at (some m) true s = Tries.locked_twice refl refl refl refl
  lock-at (some m) false s = elim (Result-cases (ms.lock m s).0) [
    | inl (x, e) ↦
        Tries.locks m x refl (ground (arith, e)) refl (ground (arith, e))
          (λ j. ground (arith, e, ms.lock_ok m s j e))
    | inr (err, e) ↦
        Tries.fails err (ground (arith, e)) (ground (arith, e))
          (λ j. ground (arith, e, ms.lock_throws m s j err e))
  ]

  try_lock-at :
      (o : Option ℕ) (b : Bool) (s : S)
      → let u : UniqueLock = record { mutex = o; locked = b } in
        let r = try_lock ms u s in Tries (λ x. x) u s r.0 r.1.0 r.1.1
  unfolding try_lock
  try_lock-at none b s = Tries.no_mutex refl refl refl refl
  try_lock-at (some m) true s = Tries.locked_twice refl refl refl refl
  try_lock-at (some m) false s = elim (Result-Bool (ms.try_lock m s).0) [
    | inl e ↦
        Tries.locks m true refl (ground (arith, e)) refl (ground (arith, e))
          (λ j. ground (arith, e, ms.try_true m s j e))
    | inr (inl e) ↦
        Tries.refuses false (ground (arith, e)) refl (ground (arith, e))
          (λ j. ground (arith, e, ms.try_false m s j e))
    | inr (inr (err, e)) ↦
        Tries.fails err (ground (arith, e)) (ground (arith, e))
          (λ j. ground (arith, e, ms.try_throws m s j err e))
  ]

  -- unique_lock::lock locks the mutex, once; without a mutex, or if it is locked already, it throws and
  -- changes nothing; if the mutex throws, the lock is left as it was.
  pub lock-Tries :
      (u : UniqueLock) (s : S) → let r = lock ms u s in Tries (λ _. true) u s r.0 r.1.0 r.1.1
  lock-Tries u s = lock-at u.mutex u.locked s

  -- unique_lock::try_lock does the same, and may also find the mutex taken and return false.
  pub try_lock-Tries :
      (u : UniqueLock) (s : S) → let r = try_lock ms u s in Tries (λ x. x) u s r.0 r.1.0 r.1.1
  try_lock-Tries u s = try_lock-at u.mutex u.locked s

  Owner-Same : (o : Option ℕ) (b : Bool) (s s' : S) → Same s s' → Owner o b s → Owner o b s'
  Owner-Same none true s s' q h = h
  Owner-Same (some m) true s s' q h = q m ∙ h
  Owner-Same none false s s' q h = tt
  Owner-Same (some m) false s s' q h = tt

  as-IsOwner : {u u' : UniqueLock} (s : S) → u' ≡ u → IsOwner u s → IsOwner u' s
  as-IsOwner s e h = rw e h

  -- A lock that tried to lock its mutex owns what it says.
  pub Tries-IsOwner :
      {A : Type 0} {won : A → Bool} {u u' : UniqueLock} {s s' : S} {r : Result A}
      → Tries won u s r u' s'
      → IsOwner u s
      → IsOwner u' s'
  Tries-IsOwner (Tries.no_mutex a b e q) h = rw (e, q) h
  Tries-IsOwner (Tries.locked_twice a b e q) h = rw (e, q) h
  Tries-IsOwner {s' = s'} (Tries.locks m a b c d e q) h =
      as-IsOwner {u = record { mutex = some m; locked = true }} s' e
        (ground (arith, q m, ==_refl m))
  Tries-IsOwner {u = u} {s = s} {s' = s'} (Tries.refuses a b c e q) h =
      as-IsOwner {u = u} s' e (Owner-Same u.mutex u.locked s s' q h)
  Tries-IsOwner {u = u} {s = s} {s' = s'} (Tries.fails a b e q) h =
      as-IsOwner {u = u} s' e (Owner-Same u.mutex u.locked s s' q h)

  -- What unlock, the destructor and the move assignment do to the mutex of `u`.
  abbrev pub Freed : UniqueLock → S → S → Type 0
  Freed u s s' =
      ((u.locked ≡ false) × (s' ≡ s)) ⊎ ((m : ℕ) × (u.mutex ≡ some m) × Sets m false s s')

  destroy-at :
      (o : Option ℕ) (b : Bool) (s : S)
      → Owner o b s
      → let u : UniqueLock = record { mutex = o; locked = b } in Freed u s (destroy ms u s)
  unfolding destroy
  destroy-at none true s h = elim h [ ]
  destroy-at o false s h = inl (refl, refl)
  destroy-at (some m) true s h = inr (m, refl, λ j. ms.unlock_held m s j h)

  -- The destructor unlocks the mutex of a lock that owns one, and only then.
  pub destroy-Freed : (u : UniqueLock) (s : S) → IsOwner u s → Freed u s (destroy ms u s)
  destroy-Freed u s h = destroy-at u.mutex u.locked s h

  Freed-Owner :
      (u : UniqueLock) (o : Option ℕ) (b : Bool) (s s' : S)
      → Freed u s s'
      → ((m : ℕ) → u.mutex ≡ some m → o ≢ some m)
      → Owner o b s
      → Owner o b s'
  Freed-Owner u none true s s' f d h = h
  Freed-Owner u none false s s' f d h = tt
  Freed-Owner u (some m) false s s' f d h = tt
  Freed-Owner u (some m) true s s' (inl (e, q)) d h = rw q h
  Freed-Owner u (some m) true s s' (inr (n, e, q)) d h = ground (arith, q m, d n e, ==_iff n m)

  -- Move assignment unlocks the mutex of the lock that is assigned to, takes the other lock over, which
  -- still owns what it says if the two locks have different mutexes, and leaves that one unbound.
  pub move_assign-Moves :
      (u other : UniqueLock) (s : S)
      → IsOwner u s
      → IsOwner other s
      → ((m : ℕ) → u.mutex ≡ some m → other.mutex ≢ some m)
      → let r = move_assign ms u other s in
        (r.0.0 ≡ other) × (r.0.1 ≡ unbound) × Freed u s r.1 × IsOwner r.0.0 r.1
  unfolding move_assign destroy
  move_assign-Moves u other s h k d = (
    refl,
    refl,
    destroy-at u.mutex u.locked s h,
    Freed-Owner u other.mutex other.locked s _ (destroy-at u.mutex u.locked s h) d k,
  )

  -- What unique_lock::unlock may do.
  abbrev pub Unlocks : UniqueLock → S → Result (Unit {0}) → UniqueLock → S → Type 0
  Unlocks u s r u' s' =
      ((u.locked ≡ false) × (r ≡ throws (system operation_not_permitted)) × (u' ≡ u) × (s' ≡ s))
      ⊎ ((m : ℕ) × (u.mutex ≡ some m)
          × (r ≡ ok tt)
          × (u' ≡ record { mutex = some m; locked = false })
          × Sets m false s s')

  unlock-at :
      (o : Option ℕ) (b : Bool) (s : S)
      → Owner o b s
      → let u : UniqueLock = record { mutex = o; locked = b } in
        let r = unlock ms u s in Unlocks u s r.0 r.1.0 r.1.1
  unfolding unlock
  unlock-at none true s h = elim h [ ]
  unlock-at o false s h = inl (refl, refl, refl, refl)
  unlock-at (some m) true s h = inr (m, refl, refl, refl, λ j. ms.unlock_held m s j h)

  -- unique_lock::unlock releases the mutex of a lock that owns one, and the lock owns it no more; it
  -- throws, and changes nothing, if the lock owns none.
  pub unlock-Unlocks :
      (u : UniqueLock) (s : S) → IsOwner u s → let r = unlock ms u s in Unlocks u s r.0 r.1.0 r.1.1
  unlock-Unlocks u s h = unlock-at u.mutex u.locked s h
