-- ===== src/Latch/Tests.antt =====
-- A latch that two threads wait for, and instances of the theorems on it.
