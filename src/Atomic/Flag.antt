-- ===== src/Atomic/Flag.antt =====
-- atomic_flag of src/_armcc/_atomic.hpp: both of its operations exchange the whole word.
use native.Mathlib.Nat
use weos.Common.{
  ℕ, ◌+◌, ◌-◌, ◌%◌, ◌^◌, ◌≡◌, ◌≤◌, ◌⊎◌, inl, inr, refl, sym, subst, arith, ◌==◌, ◌&&◌,
  if◌then◌else◌, List, [], ◌∷◌,
}
use weos.Atomic.{Op, Outcome, Event, outcome, next_value, Executes}
use weos.Atomic.Monitor.{Monitors}
use weos.Atomic.Word.{System, Reach}
use weos.Atomic.Linear.{Reach-Executes}

-- The number of values of an int
abbrev pub int_size : ℕ
int_size = 2 ^ 32

-- fetch_and_set(1)
abbrev pub test_and_set : Op
test_and_set = Op.exchange 1

-- fetch_and_set(0)
abbrev pub clear : Op
clear = Op.exchange 0

-- Calls of test_and_set that have given false
abbrev pub acquires : Op → Outcome → ℕ
acquires (Op.exchange w) (Outcome.returned v) = if w == 1 && v == 0 then 1 else 0
acquires _ _ = 0

abbrev pub acquired : List Event → ℕ
acquired [] = 0
acquired (e ∷ es) = acquires e.op e.outcome + acquired es

-- Calls of clear
abbrev pub releases : Op → ℕ
releases (Op.exchange w) = if w == 0 then 1 else 0
releases _ = 0

abbrev pub released : List Event → ℕ
released [] = 0
released (e ∷ es) = releases e.op + released es

-- The flag is used by these two only.
abbrev pub IsFlagLog : List Event → Type 0
IsFlagLog [] = Unit
IsFlagLog (e ∷ es) = ((e.op ≡ test_and_set) ⊎ (e.op ≡ clear)) × IsFlagLog es

-- Whether the flag is set, and how many hold it
Balanced : List Event → ℕ → Type 0
Balanced log last = ((last ≡ 0) ⊎ (last ≡ 1)) × (acquired log + (1 - last) ≤ released log + 1)

step-Balanced :
    (e : Event) (es : List Event) (value last : ℕ)
    → (e.op ≡ test_and_set) ⊎ (e.op ≡ clear)
    → Balanced es value
    → outcome e.op value ≡ e.outcome
    → next_value int_size e.op value ≡ last
    → Balanced (e ∷ es) last
unfolding outcome next_value Balanced
step-Balanced e es value last (inl set) (b, h) o n =
    let n' : 1 ≡ last = subst (λ z. next_value int_size z value ≡ last) set n in
    let o' : Outcome.returned value ≡ e.outcome = subst (λ z. outcome z value ≡ e.outcome) set o in
    rw (set, ← o', ← n') (inr refl, ground (arith, b, h))
step-Balanced e es value last (inr set) (b, h) o n =
    let n' : 0 ≡ last = subst (λ z. next_value int_size z value ≡ last) set n in
    let o' : Outcome.returned value ≡ e.outcome = subst (λ z. outcome z value ≡ e.outcome) set o in
    rw (set, ← o', ← n') (inl refl, ground (arith, b, h))

Executes-Balanced :
    (log : List Event) (last : ℕ) → IsFlagLog log → Executes int_size 0 log last → Balanced log last
unfolding Balanced
Executes-Balanced [] last f x = (inl (sym x), ground (arith, x))
Executes-Balanced (e ∷ es) last (f, fs) (value, before, o, n) =
    step-Balanced e es value last f (Executes-Balanced es value fs before) o n

-- However threads interleave on a flag that is clear at first and that only test_and_set and clear are
-- called on, the calls of test_and_set that give false outnumber those of clear by at most one.
pub acquired-released :
    (monitors : Monitors) {m : monitors.M} {s : System monitors int_size}
    → Reach monitors int_size 0 m s
    → IsFlagLog s.log
    → acquired s.log ≤ released s.log + 1
unfolding Balanced
acquired-released monitors {s = s} r f =
    let (b, h) =
      Executes-Balanced s.log (s.word % int_size) f
        (Reach-Executes monitors int_size (Nat.dvd_refl int_size) r) in
    omega (arith, h)
