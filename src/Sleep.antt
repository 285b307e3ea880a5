-- ===== src/Sleep.antt =====
-- src/_cmsis_rtos/_sleep.cpp and _sleep.hpp. `osDelay` is a parameter, over the kernel's state.
pub mod Timed
pub mod Until
mod Tests
use weos.Common.{
  ℕ, suc, ◌+◌, Bool, ◌||◌, not, ◌==◌, ltb_ℤ, if◌then◌else◌, Option, some, none, ℤ, pos, pos_part,
  List, [], ◌∷◌, leb, ltb, Result, ok, throws, cmsis,
}
use weos.Cmsis.{os_ok, os_event_timeout}
use weos.Waiting.{Verdict, again, fail, slices, max_timeout}

pub judge_delay : ℕ → Verdict (Unit {0})
judge_delay result =
    if result == os_ok || result == os_event_timeout then again else fail (cmsis result)

-- `ms` is 1 at least when the while loop begins, so the loop is the do-while loop of `slices`.
module _ {S : Type 0} (delay : S → ℕ → ℕ × S) where
  pub sleep_for : S → ℤ → Option (Result (Unit {0}) × S)
  unfolding judge_delay slices
  sleep_for s ms =
      let n = pos_part ms + 1 in
      let slept = slices delay judge_delay tt (suc n) s n in
      if ltb_ℤ (pos 0) ms then slept else some (ok tt, s)
