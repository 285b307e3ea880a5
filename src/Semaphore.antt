-- ===== src/Semaphore.antt =====
-- src/_cmsis_rtos/_semaphore.cpp. `osSemaphoreWait` and `osSemaphoreRelease` are parameters: each
-- takes the kernel's state, and returns its result with the new state.
pub mod Timed
pub mod Tests
use weos.Common.{
  ℕ, suc, Bool, true, false, not, ◌==◌, ltb_ℤ, if◌then◌else◌, Option, ℤ, pos, Result, ok, throws,
  cmsis,
}
use weos.Cmsis.{os_ok, os_error_os, os_wait_forever}
use weos.Waiting.{Verdict, done, again, fail, clamp_zero, slices}

-- result > 0: true; result < 0: throw; else go on.
pub judge_wait : ℤ → Verdict Bool
judge_wait result =
    if ltb_ℤ (pos 0) result
    then done true
    else if ltb_ℤ result (pos 0)
    then fail (cmsis os_error_os)
    else again

module _ {S : Type 0} (release : S → ℕ × S) where
  pub post : S → Result (Unit {0}) × S
  post s =
      let (status, s') = release s in (if status == os_ok then ok tt else throws (cmsis status), s')

module _ {S : Type 0} (sem_wait : S → ℕ → ℤ × S) where
  pub wait : S → Result (Unit {0}) × S
  wait s =
      let (result, s') = sem_wait s os_wait_forever in
      (if ltb_ℤ (pos 0) result then ok tt else throws (cmsis os_error_os), s')

  pub try_wait : S → Result Bool × S
  try_wait s =
      let (result, s') = sem_wait s 0 in
      (if ltb_ℤ result (pos 0) then throws (cmsis os_error_os) else ok (ltb_ℤ (pos 0) result), s')

  -- The loop has one round at least for each 0xFFFE milliseconds: fuel for `ms + 1` rounds suffices.
  pub try_wait_for : S → ℤ → Option (Result Bool × S)
  unfolding judge_wait slices clamp_zero
  try_wait_for s ms = slices sem_wait judge_wait false (suc (clamp_zero ms)) s (clamp_zero ms)
