-- ===== src/Host/Signals/Tests.antt =====
-- The signals of src/_cxx11/_thread.cpp in concrete runs.
use weos.Common.{ℕ, ◌+◌, ◌<◌, ◌≡◌, ◌↔◌, ◌==◌, ◌||◌, ◌&&◌, not, refl, true, false}
use weos.Host.Signals.{
  SignalSet, no_signals, is_any, has_all, Wait, is_ready, granted, try_wait_for_all_signals, taken,
  left, notified, System, Step, Reach,
}
use weos.Host.Signals.Delivered.{ones, signals-delivered}
use weos.Host.Signals.Awake.{asleep-not_ready}
use weos.Host.Signals.Selected.{try_wait_for_all_signals_lem}

abbrev first : SignalSet
first i = i == 0

abbrev second : SignalSet
second i = i == 1

abbrev pair : SignalSet
pair i = (i == 0) || (i == 1)

-- Both signals are set, and the thread has taken the first one.
one_taken : (s : System) × Reach s
unfolding is_ready has_all notified
one_taken = (
  _,
  Reach.next
      (Reach.next (Reach.next Reach.start (Step.set_signals pair))
        (Step.begin false (Wait.all first) refl))
      (Step.pass false (Wait.all first) refl refl),
)

signals-delivered_example :
    one_taken.0.raised 1 ≡ one_taken.0.given 1 + one_taken.0.cleared 1 + ones (one_taken.0.flags 1)
signals-delivered_example = signals-delivered one_taken.1 1

second_left :
    (one_taken.0.flags 0 ≡ false) × (one_taken.0.flags 1 ≡ true) × (one_taken.0.given 0 ≡ 1)
unfolding one_taken left taken notified
second_left = (refl, refl, refl)

-- The thread sleeps until the first signal, and the second one is set.
sleeping : (s : System) × Reach s
unfolding is_ready has_all notified
sleeping = (
  _,
  Reach.next
      (Reach.next (Reach.next Reach.start (Step.set_signals second))
        (Step.begin true (Wait.all first) refl))
      (Step.sleep true (Wait.all first) refl refl),
)

asleep-not_ready_example : is_ready (Wait.all first) sleeping.0.flags ≡ false
unfolding sleeping
asleep-not_ready_example = asleep-not_ready sleeping.1 refl

try_wait_for_all_signals_lem_example :
    (((try_wait_for_all_signals first pair).0 ≡ true) ↔ (
      ((i : ℕ) × (i < 16) × (first i ≡ true))
      × ((i : ℕ) → i < 16 → first i ≡ true → pair i ≡ true)))
    × ((try_wait_for_all_signals first pair).0 ≡ true
        → (i : ℕ) → (try_wait_for_all_signals first pair).1 i ≡ pair i && not (first i))
    × ((try_wait_for_all_signals first pair).0 ≡ false
        → (i : ℕ) → i < 16
        → (try_wait_for_all_signals first pair).1 i ≡ pair i)
try_wait_for_all_signals_lem_example = try_wait_for_all_signals_lem first pair

-- wait_for_all_signals does not wait for an empty set of signals, but try_wait_for_all_signals returns false for it.
nothing_selected :
    (is_ready (Wait.all no_signals) no_signals ≡ true)
    × ((try_wait_for_all_signals no_signals no_signals).0 ≡ false)
unfolding is_ready has_all try_wait_for_all_signals granted is_any
nothing_selected = (refl, refl)
