-- ===== src/Semaphore/Tests.antt =====
-- A counting semaphore as the kernel's, and instances of the theorem on it.
use weos.Common.{ℕ, zero, suc, ◌≡◌, refl, some, [], ◌∷◌, false, ℤ, pos, ok}
use weos.Waiting.{noted}
use weos.Semaphore.{try_wait_for}

-- The state is the number of calls that time out before a token comes.
abbrev countdown : ℕ → ℕ → ℤ × ℕ
countdown zero t = (pos 1, zero)
countdown (suc n) t = (pos 0, n)

-- 140000 milliseconds are waited for in three calls.
three_calls :
    try_wait_for (noted countdown) (5, []) (pos 140000)
    ≡ some (ok false, (2, 65534 ∷ 65534 ∷ 8932 ∷ []))
unfolding try_wait_for
three_calls = refl
