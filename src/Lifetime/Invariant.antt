-- ===== src/Lifetime/Invariant.antt =====
-- The states that the life of a thread's shared state goes through: the two threads' positions
-- determine the count and the tokens.
use weos.Common.{ℕ, ◌≡◌, refl, Option, none, some, arith}
use weos.Lifetime.{HandlePc, InvokeePc, System, Step, Reach, after_drop}
use weos.Lifetime.Reach.{start, next}

abbrev numbers : HandlePc → InvokeePc → ℕ → ℕ → ℕ → ℕ → Option System
numbers h i refs jod fin des = some (record {
  reference_count = refs;
  joined_or_detached = jod;
  finished = fin;
  destroyed = des;
  handle = h;
  invokee = i;
})

-- `none` for positions that do not occur together.
abbrev pub expected : HandlePc → InvokeePc → Option System
expected HandlePc.creating InvokeePc.running = numbers HandlePc.creating InvokeePc.running 1 0 0 0
expected HandlePc.owning InvokeePc.running = numbers HandlePc.owning InvokeePc.running 2 0 0 0
expected HandlePc.joining InvokeePc.running = numbers HandlePc.joining InvokeePc.running 2 1 0 0
expected HandlePc.detaching InvokeePc.running = numbers HandlePc.detaching InvokeePc.running 2 1 0 0
expected HandlePc.detach_returned InvokeePc.running =
    numbers HandlePc.detach_returned InvokeePc.running 1 1 0 0
expected HandlePc.creating InvokeePc.parked = numbers HandlePc.creating InvokeePc.parked 1 0 0 0
expected HandlePc.owning InvokeePc.parked = numbers HandlePc.owning InvokeePc.parked 2 0 0 0
expected HandlePc.joining InvokeePc.parked = numbers HandlePc.joining InvokeePc.parked 2 1 0 0
expected HandlePc.detaching InvokeePc.parked = numbers HandlePc.detaching InvokeePc.parked 2 1 0 0
expected HandlePc.detach_returned InvokeePc.parked =
    numbers HandlePc.detach_returned InvokeePc.parked 1 1 0 0
expected HandlePc.joining InvokeePc.leaving = numbers HandlePc.joining InvokeePc.leaving 2 0 0 0
expected HandlePc.joining InvokeePc.signalling =
    numbers HandlePc.joining InvokeePc.signalling 1 0 0 0
expected HandlePc.joining InvokeePc.ended = numbers HandlePc.joining InvokeePc.ended 1 0 1 0
expected HandlePc.detaching InvokeePc.leaving = numbers HandlePc.detaching InvokeePc.leaving 2 0 0 0
expected HandlePc.detaching InvokeePc.signalling =
    numbers HandlePc.detaching InvokeePc.signalling 1 0 0 0
expected HandlePc.detaching InvokeePc.ended = numbers HandlePc.detaching InvokeePc.ended 1 0 1 0
expected HandlePc.joined InvokeePc.ended = numbers HandlePc.joined InvokeePc.ended 1 0 0 0
expected HandlePc.join_destroying InvokeePc.ended =
    numbers HandlePc.join_destroying InvokeePc.ended 0 0 0 0
expected HandlePc.join_returned InvokeePc.ended =
    numbers HandlePc.join_returned InvokeePc.ended 0 0 0 1
expected HandlePc.awaiting InvokeePc.signalling =
    numbers HandlePc.awaiting InvokeePc.signalling 0 0 0 0
expected HandlePc.awaiting InvokeePc.ended = numbers HandlePc.awaiting InvokeePc.ended 0 0 1 0
expected HandlePc.detach_destroying InvokeePc.ended =
    numbers HandlePc.detach_destroying InvokeePc.ended 0 0 0 0
expected HandlePc.detach_returned InvokeePc.ended =
    numbers HandlePc.detach_returned InvokeePc.ended 0 0 0 1
expected HandlePc.detach_returned InvokeePc.leaving =
    numbers HandlePc.detach_returned InvokeePc.leaving 1 0 0 0
expected HandlePc.detach_returned InvokeePc.last =
    numbers HandlePc.detach_returned InvokeePc.last 0 0 0 0
expected HandlePc.detach_returned InvokeePc.exiting =
    numbers HandlePc.detach_returned InvokeePc.exiting 0 0 0 1
expected HandlePc.detach_returned InvokeePc.ended_alone =
    numbers HandlePc.detach_returned InvokeePc.ended_alone 0 0 0 1
expected _ _ = none

abbrev pub Inv : System → Type 0
Inv s = expected s.handle s.invokee ≡ some s

-- Every step keeps to the table.
pub Step-Inv : {s t : System} → Step s t → Inv s → Inv t
unfolding after_drop
Step-Inv (Step.count h) v = ground arith
Step-Inv (Step.join h) v = ground arith
Step-Inv (Step.join_wait h p) v = ground arith
Step-Inv (Step.join_drop h) v = ground arith
Step-Inv (Step.join_destroy h) v = ground arith
Step-Inv (Step.detach h) v = ground arith
Step-Inv (Step.detach_drop h) v = ground arith
Step-Inv (Step.detach_wait h p) v = ground arith
Step-Inv (Step.detach_destroy h) v = ground arith
Step-Inv (Step.finish h) v = ground arith
Step-Inv (Step.unpark h p) v = ground arith
Step-Inv (Step.drop h) v = ground arith
Step-Inv (Step.destroy h) v = ground arith
Step-Inv (Step.terminate h) v = ground arith
Step-Inv (Step.signal h) v = ground arith

pub Reach-Inv : {s : System} → Reach s → Inv s
Reach-Inv start = refl
Reach-Inv (next r st) = Step-Inv st (Reach-Inv r)
