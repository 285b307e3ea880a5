-- ===== src/Host/Thread.antt =====
-- src/_cxx11/_thread.cpp and _thread.hpp: any number of threads, each with its handle, and the map of the shared states. A
-- critical section of the thread's mutex or of that of the map is one step. The host gives a new thread an id that
-- no running thread has.
pub mod Registry
mod Tests
use weos.Common.{ℕ, ◌≡◌, ◌≢◌, ◌==◌, Bool, true, false, if◌then◌else◌, Option, none, some, moved}

-- Where a thread stands in threadedFunction.
pub data Pc : Type 0 where
  absent : Pc  -- before thread::create has started it
  adding : Pc  -- before manager.add
  marking : Pc  -- before m_isRegistered = true
  executing : Pc  -- in state->execute()
  parked : Pc  -- before the wait for m_joinedOrDetached returns
  removing : Pc  -- before manager.remove
  ended : Pc

-- Where the owner of its handle stands.
pub data HandlePc : Type 0 where
  empty : HandlePc
  creating : HandlePc  -- create: before the wait for m_isRegistered returns
  joinable : HandlePc
  joining : HandlePc  -- join: m_joinedOrDetached is set, before m_thread.join()
  detaching : HandlePc  -- detach: m_joinedOrDetached is set, before m_thread.detach()
  joined : HandlePc  -- join has returned
  detached : HandlePc  -- detach has returned

-- Is the state of the thread in the map?
pub is_registered : Pc → Bool
is_registered Pc.marking = true
is_registered Pc.executing = true
is_registered Pc.parked = true
is_registered Pc.removing = true
is_registered _ = false

-- Does the thread run?
pub is_running : Pc → Bool
is_running Pc.absent = false
is_running Pc.ended = false
is_running _ = true

-- `states` is m_idToData, and a thread stands for its shared state; `failed` tells whether an assertion of the
-- manager has failed.
pub record System : Type 0 where
  pub states : ℕ → Option ℕ
  pub failed : Bool
  pub id : ℕ → ℕ
  pub pc : ℕ → Pc
  pub handle : ℕ → HandlePc
  pub marked : ℕ → Bool  -- m_isRegistered
  pub told : ℕ → Bool  -- m_joinedOrDetached

abbrev pub init : System
init = record {
  states = λ i. none;
  failed = false;
  id = λ t. 0;
  pc = λ t. Pc.absent;
  handle = λ t. HandlePc.empty;
  marked = λ t. false;
  told = λ t. false;
}

pub data Step (s : System) : System → Type 0 where
  create :
      (t i : ℕ)
      → s.handle t ≡ HandlePc.empty
      → s.pc t ≡ Pc.absent
      → ((u : ℕ) → is_running (s.pc u) ≡ true → s.id u ≢ i)
      → Step s (record s {
        id = moved s.id t i;
        pc = moved s.pc t Pc.adding;
        handle = moved s.handle t HandlePc.creating;
      })
  add :
      (t : ℕ)
      → s.pc t ≡ Pc.adding
      → s.states (s.id t) ≡ none
      → Step s
          (record s { states = moved s.states (s.id t) (some t); pc = moved s.pc t Pc.marking })
  add_fails :
      (t u : ℕ)
      → s.pc t ≡ Pc.adding
      → s.states (s.id t) ≡ some u
      → Step s (record s { failed = true })
  mark :
      (t : ℕ)
      → s.pc t ≡ Pc.marking
      → Step s (record s { marked = moved s.marked t true; pc = moved s.pc t Pc.executing })
  created :
      (t : ℕ)
      → s.handle t ≡ HandlePc.creating
      → s.marked t ≡ true
      → Step s (record s { handle = moved s.handle t HandlePc.joinable })
  find_fails :
      (t : ℕ)
      → s.pc t ≡ Pc.executing
      → s.states (s.id t) ≡ none
      → Step s (record s { failed = true })
  executed : (t : ℕ) → s.pc t ≡ Pc.executing → Step s (record s { pc = moved s.pc t Pc.parked })
  join :
      (t : ℕ)
      → s.handle t ≡ HandlePc.joinable
      → Step s (record s { told = moved s.told t true; handle = moved s.handle t HandlePc.joining })
  detach :
      (t : ℕ)
      → s.handle t ≡ HandlePc.joinable
      → Step s
          (record s { told = moved s.told t true; handle = moved s.handle t HandlePc.detaching })
  leave :
      (t : ℕ)
      → s.pc t ≡ Pc.parked
      → s.told t ≡ true
      → Step s (record s { pc = moved s.pc t Pc.removing })
  remove :
      (t u : ℕ)
      → s.pc t ≡ Pc.removing
      → s.states (s.id t) ≡ some u
      → Step s (record s { states = moved s.states (s.id t) none; pc = moved s.pc t Pc.ended })
  remove_fails :
      (t : ℕ)
      → s.pc t ≡ Pc.removing
      → s.states (s.id t) ≡ none
      → Step s (record s { failed = true })
  join_ends :
      (t : ℕ)
      → s.handle t ≡ HandlePc.joining
      → s.pc t ≡ Pc.ended
      → Step s (record s { handle = moved s.handle t HandlePc.joined })
  detach_ends :
      (t : ℕ)
      → s.handle t ≡ HandlePc.detaching
      → Step s (record s { handle = moved s.handle t HandlePc.detached })

pub data Reach : System → Type 0 where
  start : Reach init
  next : {s t : System} → Reach s → Step s t → Reach t
