-- ===== src/Clock.antt =====
-- src/_cmsis_rtos/_chrono_clocks.cpp: the tick counter of the system clock, which extends the 32-bit
-- `os_time` by an overflow counter.
pub mod Exact
pub mod Tests
use weos.Common.{
  ℕ, ◌+◌, ◌-◌, ◌*◌, ◌/◌, ◌%◌, ◌^◌, Bool, true, false, Option, none, some, List, [], ◌∷◌, ltb, ◌==◌,
  ◌&&◌, ◌||◌, if◌then◌else◌,
}

infixl 5 ◌>>=◌
abbrev ◌>>=◌ : {A B : Type 0} → Option A → (A → Option B) → Option B
none >>= f = none
some a >>= f = f a

-- One pass of the sampling loop: `os_tick_val`, `os_time` and `os_tick_ovf`, read twice.
pub record Sample : Type 0 where
  pub ticks : ℕ
  pub os_time : ℕ
  pub ovf : Bool
  pub ticks_again : ℕ
  pub os_time_again : ℕ
  pub ovf_again : Bool

pub record Pair : Type 0 where
  pub ticks : ℕ
  pub time : ℕ

-- os_tick_ovf() ? os_time + 1 : os_time
pub corrected : Bool → ℕ → ℕ
corrected ovf t = if ovf then (t + 1) % 2 ^ 32 else t

-- `none` means that the given samples are used up and the loop goes on.
pub sample_loop : List Sample → Option Pair
unfolding corrected
sample_loop [] = none
sample_loop (s ∷ rest) =
    let again = sample_loop rest in
    let time = corrected s.ovf s.os_time in
    if ltb s.ticks s.ticks_again && time == corrected s.ovf_again s.os_time_again
    then some (record { ticks = s.ticks; time = time })
    else again

-- x & 0xF0000000
pub high_bits : ℕ → ℕ
high_bits x = x % 2 ^ 32 / 2 ^ 28 * 2 ^ 28

-- x & 0x0FFFFFFF
pub low_bits : ℕ → ℕ
low_bits x = x % 2 ^ 28

-- high | overflows, for a `high` with zeros below bit 28: bit 28 may be set in both.
pub merge_bits : ℕ → ℕ → ℕ
merge_bits high overflows =
    if ltb (high / 2 ^ 28 % 2 + overflows / 2 ^ 28 % 2) 2
    then high + overflows
    else high + overflows - 2 ^ 28

-- The result of a pass: the overflow count in use, and the word left in weos_chrono_overflowData.
pub record Tracked : Type 0 where
  pub overflows : ℕ
  pub stored : ℕ

-- One pass of the loop that succeeds: nothing to do, or a compare-exchange that finds `stored`.
pub track : ℕ → ℕ → Tracked
unfolding high_bits low_bits merge_bits
track stored time =
    let high = high_bits time in
    let prev = high_bits stored in
    let overflows = low_bits stored in
    let next = if ltb high prev then overflows + 1 else overflows in
    if high == prev
    then record { overflows = overflows; stored = stored }
    else record { overflows = next; stored = merge_bits high next }

-- What a pass of the loop meets: the word that it loads, and whether its compare-exchange succeeds
-- (it may fail for another thread's write, or spuriously).
pub record Round : Type 0 where
  pub loaded : ℕ
  pub swapped : Bool

-- `none` means that the given rounds are used up and the loop goes on.
pub track_loop : List Round → ℕ → Option Tracked
unfolding track
track_loop [] time = none
track_loop (r ∷ rest) time =
    let again = track_loop rest time in
    if high_bits time == high_bits r.loaded || r.swapped then some (track r.loaded time) else again

-- (((uint64_t)overflows << 32) | time) * (os_trv + 1) + ticks, in 64 bits
pub combine : ℕ → ℕ → ℕ → ℕ → ℕ
combine trv overflows time ticks =
    ((overflows * 2 ^ 32 % 2 ^ 64 + time % 2 ^ 32) * ((trv + 1) % 2 ^ 32) + ticks) % 2 ^ 64

-- weos_chrono_getSystemClockTicks, over the samples and rounds that it meets.
pub get_ticks : ℕ → List Sample → List Round → Option ℕ
unfolding sample_loop track_loop combine
get_ticks trv samples rounds = do
  p ← sample_loop samples
  t ← track_loop rounds p.time
  some (combine trv t.overflows p.time p.ticks)

-- system_clock::now: the ticks in units of the SysTick interval.
pub system_now : ℕ → ℕ → ℕ
system_now ticks per_interval = ticks / per_interval
