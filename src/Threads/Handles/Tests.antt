-- ===== src/Threads/Handles/Tests.antt =====
-- Runs of the handles of threads in src/_cmsis_rtos/_thread.cpp.
use weos.Common.{
  ◌+◌, ◌≡◌, refl, arith, false, List, [], ◌∷◌, throws, system, operation_not_permitted,
}
use weos.Threads.Handles.{
  nothing, is_joinable, end_thread, create, move_assign, change_signals, Call, after, run,
  is_allowed, are_allowed,
}
use weos.Threads.Handles.Kept.{count, held, threads-kept}

-- A thread is moved to the other handle, and joined there, while a second one is created.
abbrev calls : List Call
calls =
    Call.starts 8
    ∷ Call.turns
    ∷ Call.assigns
    ∷ Call.turns
    ∷ Call.starts 16
    ∷ Call.turns
    ∷ Call.ends
    ∷ []

threads-kept_example :
    count 8 (run calls nothing).created
    ≡ count 8 (run calls nothing).ended + held 8 (run calls nothing)
unfolding are_allowed is_allowed is_joinable after create end_thread move_assign
threads-kept_example = threads-kept 8 calls (omega arith) refl

joined : ((run calls nothing).ended ≡ 8 ∷ []) × ((run calls nothing).other ≡ 16)
unfolding run after create end_thread move_assign is_joinable
joined = (refl, refl)

-- Move assignment to a joinable handle loses its thread.
lost :
    let w =
      run (Call.starts 8 ∷ Call.turns ∷ Call.starts 16 ∷ Call.turns ∷ Call.assigns ∷ []) nothing in
    (held 8 w ≡ 0) × (w.ended ≡ []) × (w.terminated ≡ false)
unfolding run after create move_assign is_joinable
lost = (refl, refl, refl)

-- No signals are set for a handle without a thread.
not_joinable : change_signals 65535 1 nothing ≡ throws (system operation_not_permitted)
unfolding change_signals is_joinable
not_joinable = refl
