-- ===== src/Host.antt =====
-- The backend of src/_cxx11 on top of the C++ standard library of a host. The library's mutexes and condition variables
-- are not part of the repository: a mutex is locked only if nobody has it, and a wait of a condition variable
-- may end at any time.
pub mod Semaphore
pub mod Thread
pub mod Signals
