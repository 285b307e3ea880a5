-- ===== src/Host/Signals/Awake.antt =====
-- A thread that waits for its signals in src/_cxx11/_thread.cpp is woken when they arrive.
use weos.Common.{◌≡◌, arith, Bool, false, subst}
use weos.Host.Signals.{Wait, Pc, is_ready, notified, SignalSet, System, Step, Reach}

-- A thread that sleeps has not got what it waits for.
Asleep : Pc → SignalSet → Type 0
Asleep (Pc.asleep timed w) flags = is_ready w flags ≡ false
Asleep _ flags = Unit

Asleep-notified : (p : Pc) (flags : SignalSet) → Asleep (notified p) flags
unfolding Asleep notified
Asleep-notified Pc.running flags = tt
Asleep-notified (Pc.testing timed w) flags = tt
Asleep-notified (Pc.asleep timed w) flags = tt

Asleep-running : (p : Pc) (flags : SignalSet) → p ≡ Pc.running → Asleep p flags
unfolding Asleep
Asleep-running Pc.running flags e = tt
Asleep-running (Pc.testing timed w) flags e = tt
Asleep-running (Pc.asleep timed w) flags e = absurd (ground arith)

Step-Asleep : {s t : System} → Asleep s.pc s.flags → Step s t → Asleep t.pc t.flags
unfolding Asleep
Step-Asleep {s} {t} h (Step.set_signals selected) = Asleep-notified s.pc t.flags
Step-Asleep {s} {t} h (Step.clear_signals selected) = Asleep-notified s.pc t.flags
Step-Asleep h (Step.begin timed w e) = tt
Step-Asleep h (Step.pass timed w e r) = tt
Step-Asleep h (Step.sleep timed w e r) = r
Step-Asleep h (Step.wake timed w e) = tt
Step-Asleep h (Step.timeout w e r) = tt
Step-Asleep {s} {t} h (Step.try_any e) = Asleep-running s.pc t.flags e
Step-Asleep {s} {t} h (Step.try_all selected e) = Asleep-running s.pc t.flags e

Reach-Asleep : {s : System} → Reach s → Asleep s.pc s.flags
unfolding Asleep
Reach-Asleep Reach.start = tt
Reach-Asleep (Reach.next r step) = Step-Asleep (Reach-Asleep r) step

-- In every state that can be reached, a thread that is asleep in a wait for signals, timed or not, has not got the signals
-- it waits for: the notifications of set_signals are never lost.
pub asleep-not_ready :
    {s : System} {timed : Bool} {w : Wait}
    → Reach s
    → s.pc ≡ Pc.asleep timed w
    → is_ready w s.flags ≡ false
unfolding Asleep
asleep-not_ready {s} {timed} {w} r e = subst (λ p. Asleep p s.flags) e (Reach-Asleep r)
