-- ===== src/Host/Semaphore/Stuck.antt =====
-- post of src/_cxx11/_semaphore.cpp locks the mutex by a lock_guard, and then once more.
use weos.Common.{ℕ, ◌^◌, ◌<◌, ◌≡◌, refl, arith}
use weos.Host.Semaphore.{Pc, System, init, Step, Reach}
use weos.Host.Semaphore.Tokens.{Inv, stands, another, Reach-Inv, init-Inv}

-- Thread `t` is before the second lock, and the value and the number of takes are those of `s`.
abbrev pub IsStuck : ℕ → System → System → Type 0
IsStuck t s s' = (s'.pc t ≡ Pc.post_lock) × (s'.tokens ≡ s.tokens) × (s'.taken ≡ s.taken)

Step-IsStuck :
    {first : ℕ} {s s' : System} (r : System) (t : ℕ)
    → Inv first s
    → IsStuck t r s
    → Step s s'
    → IsStuck t r s'
Step-IsStuck r t inv (h, v, n) (Step.post u e) = (ground arith, v, n)
Step-IsStuck r t inv (h, v, n) (Step.guard u e free) = (ground arith, v, n)
Step-IsStuck r t inv (h, v, n) (Step.lock_again u e free) = absurd (ground (arith, stands inv t h))
Step-IsStuck r t inv (h, v, n) (Step.count u e) = absurd (stands inv u e)
Step-IsStuck r t inv (h, v, n) (Step.unlock_again u e) = absurd (stands inv u e)
Step-IsStuck r t inv (h, v, n) (Step.leave_post u e) = absurd (stands inv u e)
Step-IsStuck r t inv (h, v, n) (Step.call u c e) = (ground arith, v, n)
Step-IsStuck r t inv (h, v, n) (Step.lock u c e free) = (ground arith, v, n)
Step-IsStuck r t inv (h, v, n) (Step.test_some u c e k p) = (ground arith, v, n)
Step-IsStuck r t inv (h, v, n) (Step.test_block u c e b z) = (ground arith, v, n)
Step-IsStuck r t inv (h, v, n) (Step.test_fail u e z) = (ground arith, v, n)
Step-IsStuck r t inv (h, v, n) (Step.timeout u e z) = (ground arith, v, n)
Step-IsStuck r t inv (h, v, n) (Step.read u e) = (ground arith, v, n)
Step-IsStuck r t inv (h, v, n) (Step.wake u c e free) = (ground arith, v, n)
Step-IsStuck r t inv (h, v, n) (Step.take u e) =
    another (stands inv t h) (λ k. ground arith) (stands inv u e).0
Step-IsStuck r t inv (h, v, n) (Step.leave u e) = (ground arith, v, n)

-- A call of post that has constructed its lock_guard never gets any further, whatever the other threads do,
-- and from then on no thread takes or adds a token.
pub post-IsStuck :
    {first : ℕ} {s s' : System} (t : ℕ)
    → first < 2 ^ 16
    → Reach (init first) s
    → s.pc t ≡ Pc.post_lock
    → Reach s s'
    → IsStuck t s s'
post-IsStuck {first} {s} {s'} t h r e steps = after steps
  where
    inv : Inv first s
    inv = Reach-Inv (init-Inv first h) r

    after : {s' : System} → Reach s s' → IsStuck t s s'
    after Reach.start = (e, refl, refl)
    after (Reach.next more step) = Step-IsStuck s t (Reach-Inv inv more) (after more) step
