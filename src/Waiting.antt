-- ===== src/Waiting.antt =====
-- The loop by which src/_cmsis_rtos waits for a time that may be longer than the 0xFFFE milliseconds
-- of one CMSIS call. It stands in semaphore::try_wait_for, in the timed mutexes' try_lock_for and in
-- the two try_wait_for_…_signal…_for functions, each with its own reading of the call's result.
pub mod Slices
use weos.Common.{
  ℕ, zero, suc, ◌+◌, ◌-◌, Option, none, some, List, [], ◌∷◌, ◌++◌, ltb, leb, if◌then◌else◌, ℤ, pos,
  pos_part, ltb_ℤ, Result, ok, throws, Error,
}

abbrev pub max_timeout : ℕ
max_timeout = 0xFFFE

-- How the loop's body reads the result of a call.
pub data Verdict (A : Type 0) : Type 0 where
  done : A → Verdict A
  again : Verdict A
  fail : Error → Verdict A

-- if (ms < ms.zero()) ms = ms.zero();
unfoldable pub clamp_zero : ℤ → ℕ
clamp_zero ms = if ltb_ℤ ms (pos 0) then 0 else pos_part ms

-- ms <= milliseconds(0xFFFE) ? ms : milliseconds(0xFFFE)
pub truncated : ℕ → ℕ
truncated ms = if leb ms max_timeout then ms else max_timeout

module _ {S R A : Type 0} (call : S → ℕ → R × S) (judge : R → Verdict A) (expired : A) where
  -- The do-while loop, on fuel; `none` means that the fuel ran out.
  unfoldable pub slices : ℕ → S → ℕ → Option (Result A × S)
  unfolding truncated
  slices zero s ms = none
  slices (suc fuel) s ms =
      let t = truncated ms in
      let (r, s') = call s t in
      let rest = slices fuel s' (ms - t) in
      elim (judge r) [
        | done a ↦ some (ok a, s')
        | fail e ↦ some (throws e, s')
        | again ↦ if ltb 0 (ms - t) then rest else some (ok expired, s')
      ]

-- A call that also notes the timeouts that it is given.
abbrev pub noted : {S R : Type 0} → (S → ℕ → R × S) → S × List ℕ → ℕ → R × (S × List ℕ)
noted call (s, log) t = let (r, s') = call s t in (r, (s', log ++ t ∷ []))

abbrev pub total : List ℕ → ℕ
total [] = 0
total (t ∷ ts) = t + total ts
