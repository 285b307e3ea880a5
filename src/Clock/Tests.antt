-- ===== src/Clock/Tests.antt =====
-- Runs of the clock's definitions, and instances of its theorems.
use weos.Common.{◌+◌, ◌-◌, ◌*◌, ◌^◌, ◌≡◌, refl, List, [], ◌∷◌, ◌++◌, true, false, some, arith}
use weos.Clock.{Sample, sample_loop, Round, get_ticks}
use weos.Clock.Exact.{encode, get_ticks_exact}

-- The tick counter wraps between the two reads of the first sample.
abbrev samples : List Sample
samples =
    record {
      ticks = 90;
      os_time = 4;
      ovf = false;
      ticks_again = 3;
      os_time_again = 4;
      ovf_again = true;
    }
    ∷ record {
      ticks = 5;
      os_time = 4;
      ovf = true;
      ticks_again = 9;
      os_time_again = 5;
      ovf_again = false;
    }
    ∷ []

sample_loop_run : sample_loop samples ≡ some (record { ticks = 5; time = 5 })
unfolding sample_loop
sample_loop_run = refl

abbrev disturbed : Round
disturbed = record { loaded = encode (2 ^ 32 - 9); swapped = false }

abbrev winner : Round
winner = record { loaded = encode (2 ^ 32 - 1); swapped = true }

get_ticks_exact_example :
    get_ticks 99 samples ((disturbed ∷ []) ++ winner ∷ []) ≡ some ((2 ^ 32 + 5) * 100 + 5)
get_ticks_exact_example =
    get_ticks_exact (2 ^ 32 + 5) 99 samples (record { ticks = 5; time = 5 }) (disturbed ∷ []) winner
      sample_loop_run refl (omega arith) (omega arith) (omega arith) (omega arith)
      ((2 ^ 32 - 9, refl, omega arith, omega arith), tt)
      (2 ^ 32 - 1, refl, omega arith, omega arith) refl
