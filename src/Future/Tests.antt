-- ===== src/Future/Tests.antt =====
-- The theorems on the future, applied to a concrete history and to a race of two threads.
use weos.Common.{ℕ, true, false, ◌≡◌, refl, List, [], ◌∷◌, FutureErrc, broken_promise}
use weos.Future.{
  Call, run, made, after, hand_out, give_value, attach_future, start_setting_value, store_value,
}
use weos.Future.Protocol.{IsShared, run-IsShared}
use weos.Future.Race.{Flags, exchanging, won, SetterStep, RaceStep, Race, entrants}

-- A future is handed out, and 7 is set.
abbrev history : List (Call ℕ FutureErrc)
history = Call.get_future ∷ Call.set_value 7 ∷ []

promise_held : (run broken_promise (made {V = ℕ}) history).promise ≡ true
unfolding run after hand_out give_value attach_future store_value start_setting_value
promise_held = refl

run-IsShared_example : IsShared (run broken_promise made history)
run-IsShared_example = run-IsShared broken_promise history

abbrev clear : Flags
clear = record {
  future_attached = true;
  being_satisfied = false;
  value_constructed = false;
  ready = false;
}

abbrev taken : Flags
taken = record clear { being_satisfied = true }

-- Both threads read the flags; the first one wins.
two_setters : Race clear (entrants 2) taken (won ∷ exchanging clear ∷ [])
unfolding entrants
two_setters = Race.next (RaceStep.here _ (SetterStep.load clear)) (
    Race.next (RaceStep.there _ (RaceStep.here _ (SetterStep.load clear))) (
      Race.next (RaceStep.here _ (SetterStep.go_on clear clear refl)) (
        Race.next (RaceStep.there _ (RaceStep.here _ (SetterStep.go_on clear clear refl)))
          (Race.next (RaceStep.here _ (SetterStep.exchange clear)) (Race.nil _ _)))))
