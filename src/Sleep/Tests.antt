-- ===== src/Sleep/Tests.antt =====
-- A kernel that refuses to delay from the tick 5000 on, and otherwise delays for all of the time, and a clock
-- with a thousand ticks to a millisecond.
use weos.Common.{ℕ, ◌+◌, ◌*◌, leb, if◌then◌else◌}
use weos.Cmsis.{os_event_timeout}

-- 130 is osErrorISR.
abbrev delay : ℕ → ℕ → ℕ × ℕ
delay s ms = if leb 5000 s then (130, s) else (os_event_timeout, s + ms * 1000)
