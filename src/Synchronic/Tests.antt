-- ===== src/Synchronic/Tests.antt =====
-- A run of src/_cmsis_rtos/_synchronic.hpp on the waiting queue: the thread with the node at 8 expects the
-- value 1 and is notified.
use weos.Common.{◌==◌, if◌then◌else◌, ℕ}
use weos.Tq.Contract.{waiting_queue}
use weos.Tq.Sample.{told}
use weos.Synchronic.{WaiterPc, NotifierPc, Expected, System, Reach}

abbrev wants_one : ℕ → Expected
wants_one = λ t. Expected.desired 1

abbrev after_notify : System waiting_queue wants_one 1
after_notify = record {
  object = 1;
  waiting = told.0;
  pc = λ u.
      if 8 == u
      then WaiterPc.sleeping
      else if 8 == u
      then WaiterPc.testing
      else if 8 == u
      then WaiterPc.constructing
      else WaiterPc.arriving;
  notifying = NotifierPc.finished;
}
