-- ===== src/Sleep/Timed.antt =====
-- this_thread::sleep_for of src/_cmsis_rtos/_sleep.cpp sleeps one millisecond longer than asked for.
use weos.Common.{ℕ, ◌+◌, ◌<◌, ◌≡◌, [], true, arith, pos, ltb_ℤ}
use weos.Waiting.{noted}
use weos.Waiting.Slices.{TimedRun, slices-TimedRun}
use weos.Sleep.{judge_delay, sleep_for}

module _ {S : Type 0} (delay : S → ℕ → ℕ × S) where
  -- A positive number `n` of milliseconds is slept for, and one more, in slices of at most 0xFFFE;
  -- only a failed osDelay ends the sleep before that, with its status as an error.
  pub sleep_for-TimedRun :
      (s : S) (n : ℕ)
      → 0 < n
      → TimedRun judge_delay tt (n + 1) (sleep_for (noted delay) (s, []) (pos n))
  unfolding sleep_for
  sleep_for-TimedRun s n h =
      let e : ltb_ℤ (pos 0) (pos n) ≡ true = ground arith in
      rw (e, sleep_for) (slices-TimedRun delay judge_delay tt s (n + 1))
