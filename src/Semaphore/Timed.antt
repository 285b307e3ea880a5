-- ===== src/Semaphore/Timed.antt =====
-- semaphore::try_wait_for of src/_cmsis_rtos/_semaphore.cpp keeps to its time.
use weos.Common.{
  ℕ, ◌≤◌, ◌≡◌, Option, some, List, [], All, Bool, true, false, arith, Result, ok, throws, Error,
  cmsis, ℤ,
}
use weos.Cmsis.{os_error_os}
use weos.Waiting.{done, fail, max_timeout, total, noted, clamp_zero}
use weos.Waiting.Slices.{Outcome, TimedRun, slices-TimedRun}
use weos.Semaphore.{judge_wait, try_wait_for}

judge-done : (v : ℤ) (a : Bool) → judge_wait v ≡ done a → a ≡ true
unfolding judge_wait
judge-done v a e = ground arith

judge-fail : (v : ℤ) (e : Error) → judge_wait v ≡ fail e → e ≡ cmsis os_error_os
unfolding judge_wait
judge-fail v e h = ground arith

module _ {S : Type 0} (sem_wait : S → ℕ → ℤ × S) where
  -- semaphore::try_wait_for ends; it asks the kernel for at most 0xFFFE milliseconds at a time and
  -- for at most `ms` in all (none for a negative `ms`). It returns true after a call with a positive
  -- result, throws after one with a negative result, and else returns false, after `ms` milliseconds.
  pub try_wait_for-TimedRun :
      (s : S) (ms : ℤ)
      → TimedRun judge_wait false (clamp_zero ms) (try_wait_for (noted sem_wait) (s, []) ms)
  unfolding try_wait_for
  try_wait_for-TimedRun s ms = slices-TimedRun sem_wait judge_wait false s (clamp_zero ms)

-- What the result of a run says.
pub record Meaning {S : Type 0} (ms : ℕ) (run : Option (Result Bool × (S × List ℕ))) : Type 0 where
  pub result : Result Bool
  pub state : S
  pub log : List ℕ
  pub runs : run ≡ some (result, (state, log))
  pub bounded : All (λ t. t ≤ max_timeout) log
  pub within : total log ≤ ms
  pub failed : result ≡ ok false → total log ≡ ms
  pub thrown : (e : Error) → result ≡ throws e → e ≡ cmsis os_error_os

false_end : {r : Result Bool} {p : Type 0} → Outcome judge_wait false p r → r ≡ ok false → p
false_end (Outcome.success v a e q) h = cc (judge-done v a e)
false_end (Outcome.failure v x e q) h = cc
false_end (Outcome.timeout spent q) h = spent

error_end :
    {r : Result Bool} {p : Type 0}
    → Outcome judge_wait false p r
    → (e : Error) → r ≡ throws e
    → e ≡ cmsis os_error_os
error_end (Outcome.success v a d q) e h = cc
error_end (Outcome.failure v x d q) e h = cc (judge-fail v x d)
error_end (Outcome.timeout spent q) e h = cc

-- semaphore::try_wait_for ends within its time; a false result means that all of `ms` has passed, and
-- the only error that it throws is osErrorOS.
pub try_wait_for-Meaning :
    {S : Type 0} (sem_wait : S → ℕ → ℤ × S) (s : S) (ms : ℤ)
    → Meaning (clamp_zero ms) (try_wait_for (noted sem_wait) (s, []) ms)
try_wait_for-Meaning sem_wait s ms = record {
  result = w.result;
  state = w.state;
  log = w.log;
  runs = w.runs;
  bounded = w.bounded;
  within = w.within;
  failed = false_end w.outcome;
  thrown = error_end w.outcome;
}
  where
    w : TimedRun judge_wait false (clamp_zero ms) (try_wait_for (noted sem_wait) (s, []) ms)
    w = try_wait_for-TimedRun sem_wait s ms
