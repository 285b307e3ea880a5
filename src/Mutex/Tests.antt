-- ===== src/Mutex/Tests.antt =====
-- A kernel mutex that behaves as documented, and instances of the theorems on it.
use weos.Common.{ℕ, zero, suc, ◌≡◌, ◌≢◌, refl, inl, inr, true, arith, ◌==◌, if◌then◌else◌}
use weos.Cmsis.{os_ok, os_error_resource}
use weos.Mutex.Kernel.{OsMutex, Hold, free, held, Taken}
use weos.Mutex.{Mutex, lock}
use weos.Mutex.Plain.{LockStep, lock-LockStep}

abbrev take_hold : Hold → ℕ → ℕ × Hold
take_hold free t = (os_ok, held t 1)
take_hold (held u n) t = if u == t then (os_ok, held u (suc n)) else (os_error_resource, held u n)

abbrev drop_hold : Hold → ℕ → ℕ × Hold
drop_hold free t = (os_error_resource, free)
drop_hold (held u zero) t = (os_error_resource, held u zero)
drop_hold (held u (suc zero)) t =
    if u == t then (os_ok, free) else (os_error_resource, held u (suc zero))
drop_hold (held u (suc (suc n))) t =
    if u == t then (os_ok, held u (suc n)) else (os_error_resource, held u (suc (suc n)))

take_ok : (k : Hold) (t : ℕ) → (take_hold k t).0 ≡ os_ok → Taken t k (take_hold k t).1
take_ok free t h = inl (refl, refl)
take_ok (held u n) t h = inr (n, ground arith, ground arith)

take_fails : (k : Hold) (t : ℕ) → (take_hold k t).0 ≢ os_ok → (take_hold k t).1 ≡ k
take_fails free t h = absurd (h refl)
take_fails (held u n) t h = ground arith

take_free : (k : Hold) (t : ℕ) → k ≡ free → (take_hold k t).0 ≡ os_ok
take_free k t h = ground arith

take_own : (k : Hold) (t n : ℕ) → k ≡ held t n → (take_hold k t).0 ≡ os_ok
take_own k t n h = ground arith

drop_last :
    (k : Hold) (t : ℕ) → k ≡ held t 1 → ((drop_hold k t).0 ≡ os_ok) × ((drop_hold k t).1 ≡ free)
drop_last k t h = ground arith

drop_own :
    (k : Hold) (t n : ℕ)
    → k ≡ held t (suc (suc n))
    → ((drop_hold k t).0 ≡ os_ok) × ((drop_hold k t).1 ≡ held t (suc n))
drop_own k t n h = ground arith

abbrev simple : OsMutex
simple = record {
  Kernel = Hold;
  acquire = λ k t ms. take_hold k t;
  release = drop_hold;
  hold = λ k. k;
  acquire_ok = λ k t ms h. take_ok k t h;
  acquire_fails = λ k t ms h. take_fails k t h;
  acquire_free = λ k t ms h. take_free k t h;
  acquire_own = λ k t ms n h. take_own k t n h;
  release_last = drop_last;
  release_own = drop_own;
}

abbrev owned : Mutex simple
owned = record { kernel = held 7 1; locked = true }

lock-LockStep_example : LockStep simple 7 owned (lock simple owned 7).0 (lock simple owned 7).1
lock-LockStep_example = lock-LockStep simple owned 7 (inr (7, (refl, refl)))
