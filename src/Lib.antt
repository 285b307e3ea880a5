-- ===== src/Lib.antt =====
-- A verification library for the CMSIS-RTOS backend of weos: the synchronisation primitives,
-- the thread life cycle, the waiting queue and its clients, the futures, the pools, the system
-- clock and time, and for the atomics, function objects and pointers that stand in for those of
-- the C++ standard library. The kernel itself (CMSIS-RTOS RTX) is not part of the repository:
-- each of its calls is a parameter, with its documented behaviour as named hypotheses where a
-- theorem needs it.
-- The parts, and how the library models them:
-- - Common holds the shared helpers: tests on the native numbers, lists, signed integers, and
--   the results and errors of fallible functions. Cmsis has the status codes of
--   src/_cmsis_rtos/cmsis_error.hpp.
-- - Clock models src/_cmsis_rtos/_chrono_clocks.cpp: the loop that samples the kernel's tick
--   counter, and the loop that extends its 32-bit time by a counter of overflows with a
--   compare-exchange. A loop runs over the list of what its passes meet.
-- - Waiting models the pattern that the timed functions share: a wait of any length is cut into
--   slices of at most 0xFFFE milliseconds. Semaphore (src/_cmsis_rtos/_semaphore.cpp), Signals
--   (the second half of src/_cmsis_rtos/_thread.cpp), Sleep (src/_cmsis_rtos/_sleep.cpp;
--   sleep_until of _sleep.hpp has a loop of its own, Sleep.Until) and Mutex
--   (src/_cmsis_rtos/_mutex.cpp) use it.
-- - Mutex models mutex, timed_mutex and the recursive mutexes over the kernel's recursive mutex
--   (Mutex.Kernel). LockGuards models src/_common/_lock_guards.hpp over any lockables
--   (LockGuards.Lockables).
-- - Lifetime models how a thread and its handle share data in src/_cmsis_rtos/_thread.cpp:
--   do_create, join, detach, weos_threadInvoker and weos_terminateTask, as a step relation of
--   the two threads, one access to the shared data at a time.
-- - Properties models ThreadProperties and the checks of thread::do_create in
--   src/_cmsis_rtos/_thread.cpp: how a stack is allocated, aligned and handed to the kernel.
--   Threads models the list of the shared states of all threads, the iteration over it
--   (Threads.Observe), the handles of threads (Threads.Handles), and the measure of the stack
--   that a thread has used (Threads.Watermark).
-- - Tq models the queue of waiting threads in src/_cmsis_rtos/_tq.hpp and _tq.cpp, with its
--   nodes in a heap, linked through words whose lowest bits are flags. Latch
--   (src/_cmsis_rtos/_latch.hpp) is a client of it. WaitQueue is the contract of the queue with
--   the clients that block, and Tq.Contract fills it.
-- - ConditionVariable models src/_cmsis_rtos/_condition_variable.hpp and .cpp, and Synchronic
--   models src/_cmsis_rtos/_synchronic.hpp: step relations of any number of waiting threads and
--   one that notifies, over any queue that keeps the contract. A thread's node has the same
--   address in each of its waits.
-- - Future models src/_cmsis_rtos/_future.hpp and _future.cpp: a promise, its future and their
--   shared state, in any order of their calls, the race of threads that satisfy one state, and
--   async with the thread that stores its result (Future.Async).
-- - Pool models src/memorypool.hpp and the construction of elements in src/objectpool.hpp.
--   Addresses are numbers.
-- - Chrono models src/_common/_chrono.hpp: the casts, the comparisons and the arithmetic of
--   durations and time points of any periods; std::ratio, which reduces a fraction, is a
--   parameter (Chrono.Ratio). A type of durations is a period and the range of its signed
--   counts (Chrono.Rep); casts convert to this range, and arithmetic that overflows, which has
--   no defined behaviour, wraps around. IntrusivePtr (src/intrusive_ptr.hpp) runs over the
--   client's reference counting; the second of its two pointers may be a member of an object.
--   ScopeGuard models src/scopeguard.hpp.
-- - Atomic models src/_armcc/_atomic.hpp: words that are loaded and stored exclusively
--   (Atomic.Word), over the exclusive monitors of the processor as an interface
--   (Atomic.Monitor), and larger values under a mutex (Atomic.Locked), both against one
--   specification of the operations on values. Function models std::function of
--   src/_armcc/_functional.hpp: where callables lie, and the blocks of the heap. UniquePtr
--   models unique_ptr of src/_armcc/_memory.hpp.
-- - Exceptions models src/_armcc/_exception.hpp, _exception.cpp and src/_common/_exception.hpp:
--   which handlers take an exception of which class, what an exception loses in a copy
--   (Exceptions.Info), and how current_exception captures it (Exceptions.Capture). Whether
--   there is memory for a copy is a parameter. Host models the backend of src/_cxx11 on top of
--   a C++11 library: its semaphore, the map of its threads, and their signals.
-- - MessageQueue models the queue of large messages in src/_cmsis_rtos/messagequeue.hpp: a
--   counter of free slots, a pool and a queue of pointers.
-- Functions that allow a loop to go on take fuel and return an option; none means that the fuel
-- is used up. A timed wait of n milliseconds has fuel n + 1, since each slice takes at least
-- one; a walk through a queue or a list of n threads has fuel n + 2 at most; the constructor of
-- a free list of n chunks has fuel n + 1; sleep_until has fuel for one pass in each tick of the
-- clock; current_exception has fuel 2 for its nested calls. The theorems show that this is
-- enough.
-- A call that blocks is modelled in the state in which it returns, and the results of the
-- kernel are arbitrary, so that every order in which threads get through is covered. Times are
-- milliseconds, and a wait is measured by the timeouts that are passed to the kernel.
-- Not modelled: the supervisor-call assembly and the register access around the functions, the
-- other C++ standard library replacements for one compiler (src/_armcc), what src/_cxx11 only
-- passes on, and the tests. Left for later are functions that try to lock or wait until a point
-- in time.
mod Common
pub mod Clock
pub mod Cmsis
pub mod Waiting
pub mod Semaphore
pub mod Signals
pub mod Sleep
pub mod Mutex
pub mod Lifetime
pub mod Tq
pub mod Latch
pub mod LockGuards
pub mod Future
pub mod Pool
pub mod MessageQueue
pub mod Properties
pub mod Chrono
pub mod IntrusivePtr
pub mod ScopeGuard
pub mod WaitQueue
pub mod ConditionVariable
pub mod Synchronic
pub mod Atomic
pub mod Exceptions
pub mod Function
pub mod UniquePtr
pub mod Threads
pub mod Host
