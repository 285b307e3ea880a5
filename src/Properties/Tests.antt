-- ===== src/Properties/Tests.antt =====
-- The theorems on the stacks of threads, applied to concrete properties and a heap of one block.
use weos.Properties.{ThreadProperties, ThreadState}

-- A stack of 600 bytes at the address 1001.
abbrev unaligned : ThreadProperties
unaligned = record { priority = 3; initial_stack_base = 1001; stack_begin = 1001; stack_size = 600 }

abbrev new_state : ThreadState
new_state = record { stack_begin = 0; stack_size = 0; thread_id = 0; reference_count = 1 }
