-- ===== src/Signals.antt =====
-- The signal functions of src/_cmsis_rtos/_thread.cpp and `all_signals` of _thread.hpp.
-- `osSignalWait` is a parameter, over the kernel's state.
pub mod Timed
use weos.Common.{
  ℕ, suc, ◌-◌, ◌^◌, Bool, true, false, ◌&&◌, ◌||◌, ◌==◌, ltb, leb, if◌then◌else◌, Option, some,
  none, ℤ, Result, ok, throws, cmsis, assertion,
}
use weos.Cmsis.{os_ok, os_event_signal, os_event_timeout, os_wait_forever}
use weos.Waiting.{Verdict, done, again, fail, clamp_zero, slices}

-- osEvent, with the member of its union that is read here.
pub record OsEvent : Type 0 where
  pub status : ℕ
  pub signals : ℕ

-- (1 << osFeature_Signals) - 1
pub all_signals : ℕ → ℕ
all_signals feature_signals = 2 ^ feature_signals - 1

-- The tests after osSignalWait, where `v` is the value for a signal.
pub judge_event : {A : Type 0} → (OsEvent → A) → OsEvent → Verdict A
judge_event v result =
    if result.status == os_event_signal
    then done (v result)
    else if result.status == os_ok || result.status == os_event_timeout
    then again
    else fail (cmsis result.status)

abbrev pub signals_of : OsEvent → ℕ
signals_of e = e.signals

abbrev pub set_seen : OsEvent → Bool
set_seen e = true

-- A verdict where the function does not try again: `again` is then its failure value.
abbrev settle : {A : Type 0} → A → Verdict A → Result A
settle a (done b) = ok b
settle a again = ok a
settle a (fail e) = throws e

module _ {S : Type 0} (signal_wait : S → ℕ → ℕ → OsEvent × S) where
  pub wait_for_any_signal : S → Result ℕ × S
  wait_for_any_signal s =
      let (e, s') = signal_wait s 0 os_wait_forever in
      (if e.status == os_event_signal then ok e.signals else throws (cmsis e.status), s')

  pub try_wait_for_any_signal : S → Result ℕ × S
  unfolding judge_event
  try_wait_for_any_signal s =
      let (e, s') = signal_wait s 0 0 in (settle 0 (judge_event signals_of e), s')

  pub try_wait_for_any_signal_for : S → ℤ → Option (Result ℕ × S)
  unfolding judge_event slices clamp_zero
  try_wait_for_any_signal_for s ms =
      slices (λ s t. signal_wait s 0 t) (judge_event signals_of) 0 (suc (clamp_zero ms)) s
        (clamp_zero ms)

  -- The functions for given flags, each behind WEOS_ASSERT(flags > 0 && flags <= all_signals()).
  module _ (feature_signals : ℕ) where
    abbrev permitted : ℕ → Bool
    permitted flags = ltb 0 flags && leb flags (all_signals feature_signals)

    pub wait_for_all_signals : S → ℕ → Result (Unit {0}) × S
    unfolding all_signals
    wait_for_all_signals s flags =
        let (e, s') = signal_wait s flags os_wait_forever in
        if permitted flags
        then (if e.status == os_event_signal then ok tt else throws (cmsis e.status), s')
        else (throws assertion, s)

    pub try_wait_for_all_signals : S → ℕ → Result Bool × S
    unfolding all_signals judge_event
    try_wait_for_all_signals s flags =
        let (e, s') = signal_wait s flags 0 in
        if permitted flags
        then (settle false (judge_event set_seen e), s')
        else (throws assertion, s)

    pub try_wait_for_all_signals_for : S → ℕ → ℤ → Option (Result Bool × S)
    unfolding all_signals judge_event slices clamp_zero
    try_wait_for_all_signals_for s flags ms =
        let waited =
          slices (λ s t. signal_wait s flags t) (judge_event set_seen) false (suc (clamp_zero ms)) s
            (clamp_zero ms) in
        if permitted flags then waited else some (throws assertion, s)
