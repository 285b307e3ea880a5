-- ===== src/Synchronic/Wakeup.antt =====
-- No notification of src/_cmsis_rtos/_synchronic.hpp is lost.
use weos.Common.{ℕ, ◌<◌, ◌≡◌, true}
use weos.WaitQueue.{WaitQueue, Wakeable}
use weos.Synchronic.{WaiterPc, NotifierPc, Expected, accepts, System}

module _ (queue : WaitQueue) (expected : ℕ → Expected) (value : ℕ) where
  open queue use {Q, Waits, tokens}

  -- The notification has reached a thread that waits for the new value.
  abbrev Reached : Q → NotifierPc → ℕ → Type 0
  Reached q n t = n ≡ NotifierPc.finished → accepts (expected t) value ≡ true → 0 < tokens q t

  -- What a thread relies on where it stands
  abbrev Relies : Q → NotifierPc → ℕ → WaiterPc → Type 0
  Relies q n t WaiterPc.testing = Wakeable queue q t
  Relies q n t WaiterPc.sleeping = Wakeable queue q t × Reached q n t
  Relies q n t _ = Unit

  abbrev NotifierRelies : ℕ → NotifierPc → Type 0
  NotifierRelies object NotifierPc.idle = Unit
  NotifierRelies object _ = object ≡ value

  record Inv (s : System queue expected value) : Type 0 where
    waiters : (t : ℕ) → Relies s.waiting s.notifying t (s.pc t)
    notifiers : NotifierRelies s.object s.notifying

  -- A change that thread `u` does not see
  record Keeps (q q' : Q) (n n' : NotifierPc) (u : ℕ) : Type 0 where
    wakeable : Wakeable queue q u → Wakeable queue q' u
    reached : Wakeable queue q u → Reached q n u → Reached q' n' u
