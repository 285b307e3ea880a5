-- ===== src/Lifetime.antt =====
-- The life of the data that a thread shares with its handle: weos_threadInvoker, weos_terminateTask,
-- thread::join and thread::detach of src/_cmsis_rtos/_thread.cpp, and the end of thread::do_create.
-- The two threads run interleaved, one access to the shared state at a time.
pub mod Invariant
pub mod Safety
pub mod Tests
use weos.Common.{ℕ, ◌+◌, ◌-◌, ◌<◌, ◌≡◌, ◌==◌, Bool, true, false, if◌then◌else◌}

-- Where the owner of the handle stands.
pub data HandlePc : Type 0 where
  creating : HandlePc  -- do_create: the task runs, m_referenceCount is not yet increased
  owning : HandlePc  -- the handle is joinable
  joining : HandlePc  -- join: before m_finished.wait()
  joined : HandlePc  -- join: before --m_referenceCount
  join_destroying : HandlePc  -- join: before destroy()
  join_returned : HandlePc
  detaching : HandlePc  -- detach: before --m_referenceCount
  awaiting : HandlePc  -- detach: before m_finished.wait()
  detach_destroying : HandlePc  -- detach: before destroy()
  detach_returned : HandlePc

-- Where the new thread stands in weos_threadInvoker.
pub data InvokeePc : Type 0 where
  running : InvokeePc  -- execute(), with the hooks around it
  parked : InvokeePc  -- before m_joinedOrDetached.wait()
  leaving : InvokeePc  -- before --m_referenceCount
  last : InvokeePc  -- before destroy()
  exiting : InvokeePc  -- before weos_terminateTask(nullptr, threadId)
  signalling : InvokeePc  -- before weos_terminateTask(&m_finished, m_threadId)
  ended : InvokeePc  -- terminated, having posted m_finished
  ended_alone : InvokeePc  -- terminated, having destroyed the state

-- The shared state, with the tokens of its two semaphores and the number of calls of destroy(), and
-- the two threads.
pub record System : Type 0 where
  pub reference_count : ℕ
  pub joined_or_detached : ℕ
  pub finished : ℕ
  pub destroyed : ℕ
  pub handle : HandlePc
  pub invokee : InvokeePc

-- After rt_tsk_create: the constructor of the state has set the count to one.
abbrev pub init : System
init = record {
  reference_count = 1;
  joined_or_detached = 0;
  finished = 0;
  destroyed = 0;
  handle = HandlePc.creating;
  invokee = InvokeePc.running;
}

-- The branch after --m_referenceCount, which is atomic.
pub after_drop : {A : Type 0} → ℕ → A → A → A
after_drop reference_count zero_branch other = if reference_count == 1 then zero_branch else other

pub data Step (s : System) : System → Type 0 where
  -- do_create: ++state->m_referenceCount
  count :
      s.handle ≡ HandlePc.creating
      → Step s (record s { reference_count = s.reference_count + 1; handle = HandlePc.owning })
  -- join: m_joinedOrDetached.post()
  join :
      s.handle ≡ HandlePc.owning
      → Step s
          (record s { joined_or_detached = s.joined_or_detached + 1; handle = HandlePc.joining })
  join_wait :
      s.handle ≡ HandlePc.joining
      → 0 < s.finished
      → Step s (record s { finished = s.finished - 1; handle = HandlePc.joined })
  join_drop :
      s.handle ≡ HandlePc.joined
      → Step s (record s {
        reference_count = s.reference_count - 1;
        handle = after_drop s.reference_count HandlePc.join_destroying HandlePc.join_returned;
      })
  join_destroy :
      s.handle ≡ HandlePc.join_destroying
      → Step s (record s { destroyed = s.destroyed + 1; handle = HandlePc.join_returned })
  -- detach: m_joinedOrDetached.post()
  detach :
      s.handle ≡ HandlePc.owning
      → Step s
          (record s { joined_or_detached = s.joined_or_detached + 1; handle = HandlePc.detaching })
  detach_drop :
      s.handle ≡ HandlePc.detaching
      → Step s (record s {
        reference_count = s.reference_count - 1;
        handle = after_drop s.reference_count HandlePc.awaiting HandlePc.detach_returned;
      })
  detach_wait :
      s.handle ≡ HandlePc.awaiting
      → 0 < s.finished
      → Step s (record s { finished = s.finished - 1; handle = HandlePc.detach_destroying })
  detach_destroy :
      s.handle ≡ HandlePc.detach_destroying
      → Step s (record s { destroyed = s.destroyed + 1; handle = HandlePc.detach_returned })
  -- the threaded function returns
  finish : s.invokee ≡ InvokeePc.running → Step s (record s { invokee = InvokeePc.parked })
  unpark :
      s.invokee ≡ InvokeePc.parked
      → 0 < s.joined_or_detached
      → Step s
          (record s { joined_or_detached = s.joined_or_detached - 1; invokee = InvokeePc.leaving })
  drop :
      s.invokee ≡ InvokeePc.leaving
      → Step s (record s {
        reference_count = s.reference_count - 1;
        invokee = after_drop s.reference_count InvokeePc.last InvokeePc.signalling;
      })
  destroy :
      s.invokee ≡ InvokeePc.last
      → Step s (record s { destroyed = s.destroyed + 1; invokee = InvokeePc.exiting })
  terminate : s.invokee ≡ InvokeePc.exiting → Step s (record s { invokee = InvokeePc.ended_alone })
  -- weos_terminateTask posts and terminates in one supervisor call.
  signal :
      s.invokee ≡ InvokeePc.signalling
      → Step s (record s { finished = s.finished + 1; invokee = InvokeePc.ended })

pub data Reach : System → Type 0 where
  start : Reach init
  next : {s t : System} → Reach s → Step s t → Reach t

-- The next step of the handle's owner, or of the new thread, accesses the shared state.
pub handle_accesses : HandlePc → Bool
handle_accesses HandlePc.join_returned = false
handle_accesses HandlePc.detach_returned = false
handle_accesses _ = true

pub invokee_accesses : InvokeePc → Bool
invokee_accesses InvokeePc.exiting = false
invokee_accesses InvokeePc.ended = false
invokee_accesses InvokeePc.ended_alone = false
invokee_accesses _ = true
