-- ===== src/LockGuards/Two.antt =====
-- The functions of src/_common/_lock_guards.hpp that lock two lockables, by one thread.
use weos.Common.{
  ◌<◌, ℕ, zero, suc, Bool, true, false, ◌||◌, ◌≡◌, ◌∙◌, sym, ◌≢◌, refl, Option, none, some, arith,
  ◌==◌, if◌then◌else◌, ◌⊎◌, inl, inr, Result-cases, Result-Bool, Result, ok, throws, Error, ℤ, pos,
  negsuc,
}
use weos.LockGuards.Lockables.{Mutexes}
use weos.LockGuards.{try_lock_two, attempt, lock_two}

module _ (ms : Mutexes) where
  open ms use {S, held}

  -- Both mutexes are held in addition.
  abbrev pub Both : ℕ → ℕ → S → S → Type 0
  Both a b s s' = (j : ℕ) → held s' j ≡ (if (a == j) || (b == j) then true else held s j)

  abbrev pub Same : S → S → Type 0
  Same s s' = (j : ℕ) → held s' j ≡ held s j

  abbrev pub Pair : ℕ → ℕ → S → Type 0
  Pair a b s = (a ≢ b) × (held s a ≡ false) × (held s b ≡ false)

  abbrev pub TriedTwo : ℕ → ℕ → S → Result ℤ → S → Type 0
  TriedTwo a b s r s' =
      ((r ≡ ok (negsuc 0)) × Both a b s s')
      ⊎ (((r ≡ ok (pos 0)) ⊎ (r ≡ ok (pos 1)) ⊎ ((e : Error) × (r ≡ throws e))) × Same s s')

  -- try_lock of two different mutexes that the thread does not hold takes both and returns -1, or takes
  -- neither and returns the number of the one that it could not lock, or throws.
  pub try_lock_two-TriedTwo :
      (a b : ℕ) (s : S) → Pair a b s → let r = try_lock_two ms a b s in TriedTwo a b s r.0 r.1
  unfolding try_lock_two
  try_lock_two-TriedTwo a b s (d, ha, hb) =
      let sa = (ms.try_lock a s).1 in
      elim (Result-Bool (ms.try_lock a s).0) [
        | inl e ↦ elim (Result-Bool (ms.try_lock b sa).0) [
          | inl f ↦ inl (
            ground (arith, e, f),
            λ j. ground (arith, e, f, ms.try_true a s j e, ms.try_true b sa j f),
          )
          | inr (inl f) ↦ inr (
            inr (inl (ground (arith, e, f))),
            λ j. ground (
              arith,
              e,
              f,
              ms.try_true a s j e,
              ms.try_true a s a e,
              ms.try_false b sa j f,
              ms.try_false b sa a f,
              ms.unlock_held a (ms.try_lock b sa).1 j,
            ),
          )
          | inr (inr (x, f)) ↦ inr (
            inr (inr (x, ground (arith, e, f))),
            λ j. ground (
              arith,
              e,
              f,
              ms.try_true a s j e,
              ms.try_true a s a e,
              ms.try_throws b sa j x f,
              ms.try_throws b sa a x f,
              ms.unlock_held a (ms.try_lock b sa).1 j,
            ),
          )
        ]
        | inr (inl e) ↦ inr (inl (ground (arith, e)), λ j. ground (arith, e, ms.try_false a s j e))
        | inr (inr (x, e)) ↦
            inr (inr (inr (x, ground (arith, e))), λ j. ground (arith, e, ms.try_throws a s j x e))
      ]

  abbrev pub Attempted : ℕ → ℕ → S → Result Bool → S → Type 0
  Attempted a b s r s' =
      ((r ≡ ok true) × Both a b s s')
      ⊎ ((r ≡ ok false) × Same s s')
      ⊎ ((e : Error) × (r ≡ throws e) × Same s s')

  attempt-Attempted :
      (a b : ℕ) (s : S) → Pair a b s → let r = attempt ms a b s in Attempted a b s r.0 r.1
  unfolding attempt
  attempt-Attempted a b s (d, ha, hb) =
      let sa = (ms.lock a s).1 in
      elim (Result-cases (ms.lock a s).0) [
        | inl (x, e) ↦ elim (Result-Bool (ms.try_lock b sa).0) [
          | inl f ↦ inl (
            ground (arith, e, f),
            λ j. ground (arith, e, f, ms.lock_ok a s j e, ms.try_true b sa j f),
          )
          | inr (inl f) ↦ inr (
              inl (
                ground (arith, e, f),
                λ j. ground (
                  arith,
                  e,
                  f,
                  ms.lock_ok a s j e,
                  ms.lock_ok a s a e,
                  ms.try_false b sa j f,
                  ms.try_false b sa a f,
                  ms.unlock_held a (ms.try_lock b sa).1 j,
                ),
              ))
          | inr (inr (y, f)) ↦ inr (
              inr (
                y,
                ground (arith, e, f),
                λ j. ground (
                  arith,
                  e,
                  f,
                  ms.lock_ok a s j e,
                  ms.lock_ok a s a e,
                  ms.try_throws b sa j y f,
                  ms.try_throws b sa a y f,
                  ms.unlock_held a (ms.try_lock b sa).1 j,
                ),
              ))
        ]
        | inr (x, e) ↦
            inr (inr (x, ground (arith, e), λ j. ground (arith, e, ms.lock_throws a s j x e)))
      ]

  -- How lock(lockable1, lockable2) ends: both mutexes are held, or it throws and none is.
  abbrev pub Locked : ℕ → ℕ → S → Option (Result (Unit {0}) × S) → Type 0
  Locked a b s none = ⊥
  Locked a b s (some (r, s')) =
      ((r ≡ ok tt) × Both a b s s') ⊎ ((e : Error) × (r ≡ throws e) × Same s s')

  -- An attempt that fails because of another thread lowers the contention.
  abbrev pub Settles : (S → ℕ) → Type 0
  Settles contention =
      (a b : ℕ) (s : S)
      → (attempt ms a b s).0 ≡ ok false
      → contention (attempt ms a b s).1 < contention s

  Locked-transport :
      (a b : ℕ) (s : S) (o o' : Option (Result (Unit {0}) × S))
      → o ≡ o'
      → Locked a b s o'
      → Locked a b s o
  Locked-transport a b s o o' e h = rw e h

  Both-Same : (a b : ℕ) {s s' t : S} → Same s s' → Both a b s' t → Both a b s t
  Both-Same a b q h = λ j. ground (arith, q j, h j)

  Both-swap : (a b : ℕ) (s t : S) → Both b a s t → Both a b s t
  Both-swap a b s t h = λ j. ground (arith, h j)

  Locked-Same :
      (a b : ℕ) {s s' : S} (o : Option (Result (Unit {0}) × S))
      → Same s s'
      → Locked a b s' o
      → Locked a b s o
  Locked-Same a b none q h = h
  Locked-Same a b (some (r, t)) q (inl (e, h)) = inl (e, Both-Same a b q h)
  Locked-Same a b (some (r, t)) q (inr (x, e, h)) = inr (x, e, λ j. h j ∙ q j)

  Pair-Same : {a b : ℕ} {s s' : S} → Same s s' → Pair a b s → Pair a b s'
  Pair-Same {a = a} {b = b} q (d, ha, hb) = (d, q a ∙ ha, q b ∙ hb)

  -- If every attempt that fails lowers the contention by other threads, lock of two different mutexes
  -- that the thread does not hold returns; it then holds both, or an exception is passed on and it
  -- holds neither.
  pub lock_two-Locked :
      (contention : S → ℕ) (fuel a b : ℕ) (s : S)
      → Settles contention
      → Pair a b s
      → contention s < fuel
      → Locked a b s (lock_two ms fuel a b s)
  unfolding lock_two
  lock_two-Locked c zero a b s settles p h = omega (arith, h)
  lock_two-Locked c (suc n) a b s settles p h = elim (attempt-Attempted a b s p) [
    | inl (e, q) ↦ Locked-transport a b s _ (some (ok tt, s1)) (ground (arith, e)) (inl (refl, q))
    | inr (inr (x, e, q)) ↦
        Locked-transport a b s _ (some (throws x, s1)) (ground (arith, e)) (inr (x, refl, q))
    | inr (inl (e, q)) ↦ elim (attempt-Attempted b a s1 (swapped q)) [
      | inl (f, q') ↦
          Locked-transport a b s _ (some (ok tt, s2)) (ground (arith, e, f))
            (inl (refl, Both-Same a b q (Both-swap a b _ _ q')))
      | inr (inr (x, f, q')) ↦
          Locked-transport a b s _ (some (throws x, s2)) (ground (arith, e, f))
            (inr (x, refl, λ j. q' j ∙ q j))
      | inr (inl (f, q')) ↦ Locked-transport a b s _ (lock_two ms n a b s2) (ground (arith, e, f)) (
          Locked-Same a b _ (λ j. q' j ∙ q j)
            (lock_two-Locked c n a b s2 settles (Pair-Same (λ j. q' j ∙ q j) p)
              (omega (arith, h, settles a b s e, settles b a s1 f))))
    ]
  ]
    where
      s1 : S
      s1 = (attempt ms a b s).1

      s2 : S
      s2 = (attempt ms b a s1).1

      swapped : Same s s1 → Pair b a s1
      swapped q = let (d, ha, hb) = p in (λ e. d (sym e), q b ∙ hb, q a ∙ ha)
