-- ===== src/Clock/Exact.antt =====
-- How the overflow counter of src/_cmsis_rtos/_chrono_clocks.cpp follows the true number of timer
-- intervals, of which `os_time` is the remainder modulo 2^32.
use weos.Common.{
  ℕ, ◌+◌, ◌*◌, ◌/◌, ◌%◌, ◌^◌, ◌≤◌, ◌<◌, ◌≡◌, refl, List, [], ◌∷◌, ◌++◌, true, All, some, ap, arith,
}
use native.Mathlib.Nat.{mod-eq_of_lt}
use weos.Clock.{
  Sample, Pair, sample_loop, Round, track_loop, get_ticks, track, high_bits, low_bits, merge_bits,
  combine,
}

-- The word that stands for `intervals` timer intervals.
pub encode : ℕ → ℕ
encode t = t / 2 ^ 28 % 16 * 2 ^ 28 + t / 2 ^ 32 % 2 ^ 28

-- A pass that loads the word of an earlier, not too distant interval.
abbrev pub IsRecent : ℕ → Round → Type 0
IsRecent t r = (t0 : ℕ) × (r.loaded ≡ encode t0) × (t0 ≤ t) × (t < t0 + 15 * 2 ^ 28)

-- The result of the calls that read the interval counts of a list, one after the other.
pub track_all : ℕ → List ℕ → List ℕ
unfolding track
track_all stored [] = []
track_all stored (t ∷ ts) =
    let r = track stored (t % 2 ^ 32) in (r.overflows * 2 ^ 32 + t % 2 ^ 32) ∷ track_all r.stored ts

-- Calls come in order, each less than 15 * 2^28 intervals after the one before, within 2^60.
abbrev pub IsTimely : ℕ → List ℕ → Type 0
IsTimely t0 [] = Unit
IsTimely t0 (t ∷ ts) = (t0 ≤ t) × (t < t0 + 15 * 2 ^ 28) × (t < 2 ^ 60) × IsTimely t ts

high_bits-encode : (t : ℕ) → high_bits (encode t) ≡ t / 2 ^ 28 % 16 * 2 ^ 28
unfolding high_bits encode
high_bits-encode t = omega arith

low_bits-encode : (t : ℕ) → low_bits (encode t) ≡ t / 2 ^ 32 % 2 ^ 28
unfolding low_bits encode
low_bits-encode t = omega arith

high_bits-mod : (t : ℕ) → high_bits (t % 2 ^ 32) ≡ t / 2 ^ 28 % 16 * 2 ^ 28
unfolding high_bits
high_bits-mod t = omega arith

merge_bits-small : (h n : ℕ) → n < 2 ^ 28 → merge_bits (h * 2 ^ 28) n ≡ h * 2 ^ 28 + n
unfolding merge_bits
merge_bits-small h n a = ground arith

track-encode :
    (t0 t : ℕ)
    → t0 ≤ t
    → t < t0 + 15 * 2 ^ 28
    → t < 2 ^ 60
    → (track (encode t0) (t % 2 ^ 32)).overflows ≡ t / 2 ^ 32
unfolding track
track-encode t0 t a b c = ground (arith, high_bits-encode t0, high_bits-mod t, low_bits-encode t0)

track-stored :
    (t0 t : ℕ)
    → t0 ≤ t
    → t < t0 + 15 * 2 ^ 28
    → t < 2 ^ 60
    → (track (encode t0) (t % 2 ^ 32)).stored ≡ encode t
unfolding track encode
track-stored t0 t a b c = ground (
  arith,
  high_bits-encode t0,
  high_bits-mod t,
  low_bits-encode t0,
  merge_bits-small (t / 2 ^ 28 % 16) (t / 2 ^ 32),
)

track-IsRecent :
    (t : ℕ) (r : Round)
    → IsRecent t r
    → t < 2 ^ 60
    → track r.loaded (t % 2 ^ 32) ≡ record { overflows = t / 2 ^ 32; stored = encode t }
track-IsRecent t r (t0, e, a, b) c =
    rw e λ i. record { overflows = track-encode t0 t a b c i; stored = track-stored t0 t a b c i }

-- However many passes are disturbed, the loop ends with the exact count and records it.
pub track_loop_exact :
    (t : ℕ) (rounds : List Round) (last : Round)
    → All (IsRecent t) rounds
    → IsRecent t last
    → last.swapped ≡ true
    → t < 2 ^ 60
    → track_loop (rounds ++ last ∷ []) (t % 2 ^ 32)
      ≡ some (record { overflows = t / 2 ^ 32; stored = encode t })
unfolding track_loop
track_loop_exact t [] last h l s c = ground (arith, track-IsRecent t last l c)
track_loop_exact t (r ∷ rounds) last (h, hs) l s c =
    ground (arith, track-IsRecent t r h c, track_loop_exact t rounds last hs l s c)

combine-exact :
    (t trv ticks : ℕ)
    → trv < 2 ^ 24
    → ticks ≤ trv
    → t * (trv + 1) + ticks < 2 ^ 63
    → t < 2 ^ 60
    → combine trv (t / 2 ^ 32) (t % 2 ^ 32) ticks ≡ t * (trv + 1) + ticks
unfolding combine
combine-exact t trv ticks a b c d =
    let e : t / 2 ^ 32 * 2 ^ 32 % 2 ^ 64 + t % 2 ^ 32 % 2 ^ 32 ≡ t = omega arith in
    let f : (trv + 1) % 2 ^ 32 ≡ trv + 1 = omega arith in rw (e, f) (mod-eq_of_lt (omega arith))

-- The 64-bit tick count is that of the true time, if the samples end in a consistent pair, the
-- words loaded stand for recent times and the last compare-exchange succeeds. The time is below 2^60
-- intervals and 2^63 ticks, and the reload value below 2^24.
pub get_ticks_exact :
    (t trv : ℕ) (samples : List Sample) (p : Pair) (rounds : List Round) (last : Round)
    → sample_loop samples ≡ some p
    → p.time ≡ t % 2 ^ 32
    → p.ticks ≤ trv
    → trv < 2 ^ 24
    → t * (trv + 1) + p.ticks < 2 ^ 63
    → t < 2 ^ 60
    → All (IsRecent t) rounds
    → IsRecent t last
    → last.swapped ≡ true
    → get_ticks trv samples (rounds ++ last ∷ []) ≡ some (t * (trv + 1) + p.ticks)
unfolding get_ticks
get_ticks_exact t trv samples p rounds last es ep a b c d hs h s =
    rw (es, ep, track_loop_exact t rounds last hs h s d, combine-exact t trv p.ticks b a c d)

-- A history of timely calls, each of which succeeds at once, returns the true interval counts.
pub track_all_lem : (t0 : ℕ) (ts : List ℕ) → IsTimely t0 ts → track_all (encode t0) ts ≡ ts
unfolding track_all
track_all_lem t0 [] h = refl
track_all_lem t0 (t ∷ ts) (a, b, c, rest) =
    rw (track-encode t0 t a b c, track-stored t0 t a b c, track_all_lem t ts rest)
      (ap (λ n. n ∷ ts) (omega arith))

-- A thread that was suspended after it read the time, while another thread recorded a later one of
-- the same 2^32 intervals, before the interval 2^60, with other high bits, counts an overflow that has
-- not happened.
pub track-stale :
    (t0 t : ℕ)
    → t / 2 ^ 32 ≡ t0 / 2 ^ 32
    → t / 2 ^ 28 < t0 / 2 ^ 28
    → t0 < 2 ^ 60
    → (track (encode t0) (t % 2 ^ 32)).overflows ≡ t0 / 2 ^ 32 + 1
unfolding track
track-stale t0 t a b c = ground (arith, high_bits-encode t0, high_bits-mod t, low_bits-encode t0)
