-- ===== src/LockGuards/Tests.antt =====
-- Concrete lockables, and the theorems applied to them.
use weos.Common.{
  ℕ, zero, suc, Bool, true, false, ◌≡◌, refl, ◌<◌, arith, ◌==◌, if◌then◌else◌, Result, ok, throws,
}
use weos.LockGuards.Lockables.{Mutexes}
use weos.LockGuards.{attempt, lock_two}
use weos.LockGuards.Two.{Settles, Locked, lock_two-Locked}

abbrev Held : Type 0
Held = ℕ → Bool

abbrev set : ℕ → Bool → Held → Held
set m b h j = if m == j then b else h j

-- Another thread makes the next `misses` calls of try_lock fail.
record Contended : Type 0 where
  mine : Held
  misses : ℕ

abbrev try_at : ℕ → Held → ℕ → Result Bool × Contended
try_at m h zero = (ok true, record { mine = set m true h; misses = zero })
try_at m h (suc n) = (ok false, record { mine = h; misses = n })

try_true_at :
    (m : ℕ) (h : Held) (n j : ℕ)
    → (try_at m h n).0 ≡ ok true
    → (try_at m h n).1.mine j ≡ set m true h j
try_true_at m h zero j e = refl
try_true_at m h (suc n) j e = ground (arith, e)

try_false_at :
    (m : ℕ) (h : Held) (n j : ℕ) → (try_at m h n).0 ≡ ok false → (try_at m h n).1.mine j ≡ h j
try_false_at m h zero j e = ground (arith, e)
try_false_at m h (suc n) j e = refl

try_throws_at :
    (m : ℕ) (h : Held) (n j : ℕ) {x : _}
    → (try_at m h n).0 ≡ throws x
    → (try_at m h n).1.mine j ≡ h j
try_throws_at m h zero j e = ground (arith, e)
try_throws_at m h (suc n) j e = refl

abbrev contended : Mutexes
contended = record {
  S = Contended;
  lock = λ m s. (ok tt, record s { mine = set m true s.mine });
  try_lock = λ m s. try_at m s.mine s.misses;
  unlock = λ m s. record s { mine = set m false s.mine };
  held = λ s m. s.mine m;
  lock_ok = λ m s j e. refl;
  lock_throws = λ m s j x e. ground (arith, e);
  try_true = λ m s j e. try_true_at m s.mine s.misses j e;
  try_false = λ m s j e. try_false_at m s.mine s.misses j e;
  try_throws = λ m s j x e. try_throws_at m s.mine s.misses j e;
  unlock_held = λ m s j e. refl;
}

-- Three calls of try_lock fail.
abbrev start : Contended
start = record { mine = λ m. false; misses = 3 }

try_shrinks : (m : ℕ) (h : Held) (n : ℕ) → (try_at m h n).0 ≡ ok false → (try_at m h n).1.misses < n
try_shrinks m h zero e = ground (arith, e)
try_shrinks m h (suc n) e = omega arith

settles : Settles contended (λ s. s.misses)
unfolding attempt
settles a b s e = ground (arith, try_shrinks b (set a true s.mine) s.misses)

lock_two-Locked_example : Locked contended 1 2 start (lock_two contended 4 1 2 start)
lock_two-Locked_example =
    lock_two-Locked contended (λ s. s.misses) 4 1 2 start settles ((λ e. omega arith), refl, refl)
      (omega arith)
