-- ===== src/Threads/Handles.antt =====
-- The handles of threads in src/_cmsis_rtos/_thread.cpp: two variables of the class thread, one of which is *this. A thread stands
-- for the state that it shares with its handle, and 0 for the null pointer.
pub mod Kept
mod Tests
use weos.Common.{
  ℕ, ◌==◌, leb, Bool, true, false, not, ◌&&◌, ◌||◌, if◌then◌else◌, List, [], ◌∷◌, Result, ok,
  throws, system, operation_not_permitted, assertion,
}

-- m_data of the two handles, the threads that were created and those that were joined or detached, the newest first, and whether
-- std::terminate was called.
pub record Handles : Type 0 where
  pub this : ℕ
  pub other : ℕ
  pub created : List ℕ
  pub ended : List ℕ
  pub terminated : Bool

abbrev pub nothing : Handles
nothing = record { this = 0; other = 0; created = []; ended = []; terminated = false }

-- thread::joinable
pub is_joinable : Handles → Bool
is_joinable w = not (w.this == 0)

-- thread::join and thread::detach, seen from the handle
pub end_thread : Handles → Result (Unit {0}) × Handles
unfolding is_joinable
end_thread w =
    if is_joinable w
    then (ok tt, record w { this = 0; ended = w.this ∷ w.ended })
    else (throws (system operation_not_permitted), w)

-- thread::set_signals and thread::clear_signals; the kernel's function does not fail for a thread that it has created.
pub change_signals : ℕ → ℕ → Handles → Result (Unit {0})
unfolding is_joinable
change_signals all flags w =
    if is_joinable w
    then (if leb flags all then ok tt else throws assertion)
    else throws (system operation_not_permitted)

-- thread::~thread
pub destroy : Handles → Handles
unfolding is_joinable
destroy w = if is_joinable w then record w { terminated = true } else w

-- thread::operator=(thread&&), for two variables
pub move_assign : Handles → Handles
move_assign w = record w { this = w.other; other = 0 }

-- thread::thread(thread&&), after *this has been destroyed
pub move_construct : Handles → Handles
unfolding destroy is_joinable
move_construct w = if is_joinable w then destroy w else record w { this = w.other; other = 0 }

-- The constructor that creates thread `t`, after *this has been destroyed
pub create : ℕ → Handles → Handles
unfolding destroy is_joinable
create t w = if is_joinable w then destroy w else record w { this = t; created = t ∷ w.created }

-- The calls on one of the two handles. `turns` is no function: the other handle becomes *this.
pub data Call : Type 0 where
  starts : ℕ → Call
  ends dies assigns constructs turns : Call

pub after : Handles → Call → Handles
unfolding create end_thread destroy move_construct move_assign is_joinable
after w (Call.starts t) = create t w
after w Call.ends = (end_thread w).1
after w Call.dies = destroy w
after w Call.assigns = move_assign w
after w Call.constructs = move_construct w
after w Call.turns = record w { this = w.other; other = w.this }

-- The program ends with std::terminate.
pub run : List Call → Handles → Handles
unfolding after
run [] w = w
run (c ∷ cs) w = let rest = run cs (after w c) in if w.terminated then w else rest

-- May the call be made? operator= does not look at *this, which must not be joinable.
pub is_allowed : Handles → Call → Bool
unfolding is_joinable
is_allowed w Call.assigns = not (is_joinable w)
is_allowed w _ = true

pub are_allowed : List Call → Handles → Bool
unfolding is_allowed after
are_allowed [] w = true
are_allowed (c ∷ cs) w =
    let rest = are_allowed cs (after w c) in w.terminated || (is_allowed w c && rest)
