-- ===== src/Host/Signals/Delivered.antt =====
-- What becomes of the signals that are set in src/_cxx11/_thread.cpp.
use weos.Common.{ℕ, suc, ◌+◌, ◌≡◌, refl, arith, Bool, true, false, not, ◌&&◌, ◌||◌, if◌then◌else◌}
use weos.Host.Signals.{
  SignalSet, both, counted, Wait, taken, left, granted, try_wait_for_any_signal,
  try_wait_for_all_signals, System, Step, Reach,
}

abbrev pub ones : Bool → ℕ
ones b = if b then 1 else 0

-- Each bit was raised as often as it was given to the thread or reset, or once more if it is set.
Balanced : System → Type 0
Balanced s = (i : ℕ) → s.raised i ≡ s.given i + s.cleared i + ones (s.flags i)

set-balanced :
    (a b : Bool) (r g c : ℕ)
    → r ≡ g + c + ones a
    → (if b && not a then suc r else r) ≡ g + c + ones (a || b)
set-balanced true true r g c h = h
set-balanced true false r g c h = h
set-balanced false true r g c h = omega (arith, h)
set-balanced false false r g c h = h

clear-balanced :
    (a b : Bool) (r g c : ℕ)
    → r ≡ g + c + ones a
    → r ≡ g + (if b && a then suc c else c) + ones (a && not b)
clear-balanced true true r g c h = omega (arith, h)
clear-balanced true false r g c h = h
clear-balanced false true r g c h = h
clear-balanced false false r g c h = h

give-balanced :
    (a b : Bool) (r g c : ℕ)
    → r ≡ g + c + ones a
    → r ≡ (if b && a then suc g else g) + c + ones (a && not b)
give-balanced true true r g c h = omega (arith, h)
give-balanced true false r g c h = h
give-balanced false true r g c h = h
give-balanced false false r g c h = h

give_any-balanced :
    (a : Bool) (r g c : ℕ) → r ≡ g + c + ones a → r ≡ (if a && a then suc g else g) + c + 0
give_any-balanced true r g c h = omega (arith, h)
give_any-balanced false r g c h = h

wait-balanced :
    (w : Wait) (f : SignalSet) (i r g c : ℕ)
    → r ≡ g + c + ones (f i)
    → r ≡ counted (both (taken w f) f) (λ i. g) i + c + ones (left w f i)
unfolding taken left
wait-balanced Wait.any f i r g c h = give_any-balanced (f i) r g c h
wait-balanced (Wait.all selected) f i r g c h = give-balanced (f i) (selected i) r g c h

Step-Balanced : {s t : System} → Balanced s → Step s t → Balanced t
unfolding Balanced try_wait_for_any_signal try_wait_for_all_signals
Step-Balanced {s} h (Step.set_signals selected) i =
    set-balanced (s.flags i) (selected i) (s.raised i) (s.given i) (s.cleared i) (h i)
Step-Balanced {s} h (Step.clear_signals selected) i =
    clear-balanced (s.flags i) (selected i) (s.raised i) (s.given i) (s.cleared i) (h i)
Step-Balanced h (Step.begin timed w e) i = h i
Step-Balanced {s} h (Step.pass timed w e r) i =
    wait-balanced w s.flags i (s.raised i) (s.given i) (s.cleared i) (h i)
Step-Balanced h (Step.sleep timed w e r) i = h i
Step-Balanced h (Step.wake timed w e) i = h i
Step-Balanced h (Step.timeout w e r) i = h i
Step-Balanced {s} h (Step.try_any e) i =
    give_any-balanced (s.flags i) (s.raised i) (s.given i) (s.cleared i) (h i)
Step-Balanced {s} h (Step.try_all selected e) i =
    give-balanced (s.flags i) (granted selected s.flags i) (s.raised i) (s.given i) (s.cleared i)
      (h i)

Reach-Balanced : {s : System} → Reach s → Balanced s
unfolding Balanced
Reach-Balanced Reach.start i = refl
Reach-Balanced (Reach.next r step) i = Step-Balanced (Reach-Balanced r) step i

-- However set_signals, clear_signals and the thread's own waits of any kind follow one another, each signal was raised
-- as often as it was given to the thread or reset by clear_signals, and once more exactly if it is set now: none is
-- lost and none is given twice.
pub signals-delivered :
    {s : System} → Reach s → (i : ℕ) → s.raised i ≡ s.given i + s.cleared i + ones (s.flags i)
unfolding Balanced
signals-delivered r i = Reach-Balanced r i
