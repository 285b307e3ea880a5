-- ===== src/Synchronic.antt =====
-- src/_cmsis_rtos/_synchronic.hpp: any number of threads in expect or expect_update, and one in notify. A
-- step is one access to the atomic object or to the waiting queue.
pub mod Wakeup
mod Tests
use weos.Common.{ℕ, ◌≡◌, ◌==◌, Bool, true, false, not, if◌then◌else◌}
use weos.WaitQueue.{WaitQueue}

-- Where a thread in expect or expect_update stands.
pub data WaiterPc : Type 0 where
  arriving : WaiterPc  -- before the load in front of the loop
  constructing : WaiterPc  -- before _t t(m_tq)
  testing : WaiterPc  -- before the load in the loop
  sleeping : WaiterPc  -- before t.wait() returns
  leaving : WaiterPc  -- before ~_t at the end of a pass
  returning : WaiterPc  -- before ~_t of a return in the loop
  returned : WaiterPc

pub data NotifierPc : Type 0 where
  idle : NotifierPc  -- before the store
  stored : NotifierPc  -- before notify_all
  finished : NotifierPc

-- What a thread waits for.
pub data Expected : Type 0 where
  desired : ℕ → Expected  -- expect(object, desired)
  update_of : ℕ → Expected  -- expect_update(object, current)

-- The test of a thread on the object
pub accepts : Expected → ℕ → Bool
accepts (Expected.desired v) object = object == v
accepts (Expected.update_of v) object = not (object == v)

module _ (queue : WaitQueue) (expected : ℕ → Expected) (value : ℕ) where
  open queue use {Q, Enqueues, Leaves, Takes, Notifies}

  -- `object` is the atomic, `expected t` the argument of the thread `t`, `value` that of notify.
  pub record System : Type 0 where
    pub object : ℕ
    pub waiting : Q
    pub pc : ℕ → WaiterPc
    pub notifying : NotifierPc

  abbrev pub at : (ℕ → WaiterPc) → ℕ → WaiterPc → ℕ → WaiterPc
  at pc t new = λ u. if t == u then new else pc u

  abbrev pub init : Q → ℕ → System
  init q object = record {
    object = object;
    waiting = q;
    pc = λ t. WaiterPc.arriving;
    notifying = NotifierPc.idle;
  }

  pub data Step (s : System) : System → Type 0 where
    return_early :
        (t : ℕ)
        → s.pc t ≡ WaiterPc.arriving
        → accepts (expected t) s.object ≡ true
        → Step s (record s { pc = at s.pc t WaiterPc.returned })
    enter_loop :
        (t : ℕ)
        → s.pc t ≡ WaiterPc.arriving
        → accepts (expected t) s.object ≡ false
        → Step s (record s { pc = at s.pc t WaiterPc.constructing })
    construct :
        (t : ℕ) (q : Q)
        → s.pc t ≡ WaiterPc.constructing
        → Enqueues s.waiting t q
        → Step s (record s { waiting = q; pc = at s.pc t WaiterPc.testing })
    test_true :
        (t : ℕ)
        → s.pc t ≡ WaiterPc.testing
        → accepts (expected t) s.object ≡ true
        → Step s (record s { pc = at s.pc t WaiterPc.returning })
    test_false :
        (t : ℕ)
        → s.pc t ≡ WaiterPc.testing
        → accepts (expected t) s.object ≡ false
        → Step s (record s { pc = at s.pc t WaiterPc.sleeping })
    wake :
        (t : ℕ) (q : Q)
        → s.pc t ≡ WaiterPc.sleeping
        → Takes s.waiting t q
        → Step s (record s { waiting = q; pc = at s.pc t WaiterPc.leaving })
    leave :
        (t : ℕ) (q : Q)
        → s.pc t ≡ WaiterPc.leaving
        → Leaves s.waiting t q
        → Step s (record s { waiting = q; pc = at s.pc t WaiterPc.constructing })
    return :
        (t : ℕ) (q : Q)
        → s.pc t ≡ WaiterPc.returning
        → Leaves s.waiting t q
        → Step s (record s { waiting = q; pc = at s.pc t WaiterPc.returned })
    store :
        s.notifying ≡ NotifierPc.idle
        → Step s (record s { object = value; notifying = NotifierPc.stored })
    notify :
        (q : Q)
        → s.notifying ≡ NotifierPc.stored
        → Notifies s.waiting q
        → Step s (record s { waiting = q; notifying = NotifierPc.finished })

  pub data Reach (q : Q) (object : ℕ) : System → Type 0 where
    start : Reach q object (init q object)
    next : {s t : System} → Reach q object s → Step s t → Reach q object t
