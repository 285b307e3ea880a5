-- ===== src/Sleep/Until.antt =====
-- this_thread::sleep_until of src/_cmsis_rtos/_sleep.hpp. Times are ticks of the clock since its epoch, `unit` of them
-- to a millisecond. `osDelay` and the clock are parameters.
use native.Mathlib.Nat
use weos.Common.{
  ℕ, zero, suc, ◌+◌, ◌-◌, ◌/◌, ◌<◌, ◌≤◌, ◌≡◌, ◌≢◌, ◌⊎◌, not, ◌&&◌, ◌==◌, leb, ltb, if◌then◌else◌,
  Option, none, some, Result, ok, throws, cmsis,
}
use weos.Cmsis.{os_ok, os_event_timeout}

-- The milliseconds of a call for what remains: at least one, at most 0xFFFE
pub converted : ℕ → ℕ → ℕ
converted unit remaining =
    let ms = remaining / unit in if ltb ms 1 then 1 else if ltb 0xFFFE ms then 0xFFFE else ms

module _ {S : Type 0} (delay : S → ℕ → ℕ × S) (now : S → ℕ) (unit : ℕ) where
  -- The loop, on fuel
  pub sleep_until : ℕ → ℕ → S → Option (Result (Unit {0}) × S)
  unfolding converted
  sleep_until zero time s = none
  sleep_until (suc fuel) time s =
      let (status, s') = delay s (converted unit (time - now s)) in
      let rest = sleep_until fuel time s' in
      if leb time (now s)
      then some (ok tt, s)
      else if not (status == os_ok) && not (status == os_event_timeout)
      then some (throws (cmsis status), s')
      else rest

  -- osDelay has not failed.
  abbrev pub Delayed : S → ℕ → Type 0
  Delayed s ms = ((delay s ms).0 ≡ os_ok) ⊎ ((delay s ms).0 ≡ os_event_timeout)

  -- What sleep_until has done from the state `s`
  pub record Slept (time fuel : ℕ) (s : S) : Type 0 where
    pub result : Result (Unit {0})
    pub after : S
    pub runs : sleep_until fuel time s ≡ some (result, after)
    pub ends :
        ((result ≡ ok tt) × (time ≤ now after) × ((now after ≤ now s) ⊎ (now after < time + unit)))
        ⊎ ((status : ℕ) × (result ≡ throws (cmsis status))
            × (status ≢ os_ok)
            × (status ≢ os_event_timeout))
