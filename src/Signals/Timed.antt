-- ===== src/Signals/Timed.antt =====
-- The timed signal functions of src/_cmsis_rtos/_thread.cpp keep to their time.
use weos.Common.{ℕ, ◌≤◌, ◌<◌, ◌≡◌, List, [], true, false, arith, ℤ, ◌&&◌, ltb, leb}
use weos.Waiting.{noted, clamp_zero}
use weos.Waiting.Slices.{TimedRun, slices-TimedRun}
use weos.Signals.{
  OsEvent, signals_of, set_seen, judge_event, all_signals, try_wait_for_any_signal_for,
  try_wait_for_all_signals_for,
}

module _ {S : Type 0} (signal_wait : S → ℕ → ℕ → OsEvent × S) where
  -- The kernel call with its flags put first, so that its timeouts can be noted.
  abbrev pub noted_wait : S × List ℕ → ℕ → ℕ → OsEvent × (S × List ℕ)
  noted_wait s flags t = noted (λ s t. signal_wait s flags t) s t

  -- try_wait_for_any_signal_for ends, within its time: with the signals seen, with the status of a
  -- failed call as an error, or with no signals after `ms` milliseconds.
  pub try_wait_for_any_signal_for-TimedRun :
      (s : S) (ms : ℤ)
      → TimedRun
          (judge_event signals_of)
          0
          (clamp_zero ms)
          (try_wait_for_any_signal_for noted_wait (s, []) ms)
  unfolding try_wait_for_any_signal_for
  try_wait_for_any_signal_for-TimedRun s ms =
      slices-TimedRun (λ s t. signal_wait s 0 t) (judge_event signals_of) 0 s (clamp_zero ms)

  -- try_wait_for_all_signals_for ends, within its time, for permitted flags: with true, with the status
  -- of a failed call as an error, or with false after `ms` milliseconds.
  pub try_wait_for_all_signals_for-TimedRun :
      (feature_signals : ℕ) (s : S) (flags : ℕ) (ms : ℤ)
      → 0 < flags
      → flags ≤ all_signals feature_signals
      → TimedRun
          (judge_event set_seen)
          false
          (clamp_zero ms)
          (try_wait_for_all_signals_for noted_wait feature_signals (s, []) flags ms)
  unfolding try_wait_for_all_signals_for
  try_wait_for_all_signals_for-TimedRun feature_signals s flags ms a b =
      let e : (ltb 0 flags && leb flags (all_signals feature_signals)) ≡ true = ground arith in
      rw (e, try_wait_for_all_signals_for)
        (slices-TimedRun (λ s t. signal_wait s flags t) (judge_event set_seen) false s
          (clamp_zero ms))
